-- ===== src/Tests/Queues.antt =====
-- common/queue.h and common/queue.c on a heap with three entries.
use muxer.Base.{
  abort, ◌+◌, ℕ, ◌≡◌, refl, List, [], ◌∷◌, ◌==◌, ◌||◌, false, if◌then◌else◌, arith, Returns,
}
use muxer.Queue.{Heap, Queue, update, q_put, q_free}
use muxer.Queue.Linked.{IsQueue, contents}
use muxer.Queue.Put.{q_put-append}
use muxer.Queue.Free.{q_free-without}

-- Entries at 10, 20 and 30; the queue holds the first two.
abbrev heap : Heap
heap = record {
  live = λ a. a == 10 || (a == 20 || a == 30);
  next = λ a. if a == 10 then 20 else 0;
  timestamp = λ a. 0;
  ref = λ a. a + 1;
}

abbrev entries : List ℕ
entries = 10 ∷ 20 ∷ []

abbrev queue : Queue
queue = record { head = 10; tail = 20 }

queue-IsQueue : IsQueue heap queue entries
queue-IsQueue = record { linked = ground arith; head = refl; tail = refl }

q_put-append_example :
    Returns
      (λ (q', h').
        IsQueue h' q' (10 ∷ 20 ∷ 30 ∷ []) × (contents h' ≡ contents heap) × (h'.live ≡ heap.live))
      (q_put 9 77 queue 30 heap)
q_put-append_example =
    q_put-append 9 77 30 entries queue heap queue-IsQueue (omega arith) refl (omega arith)

q_free-without_example :
    Returns
      (λ (q', h').
        IsQueue h' q' (10 ∷ [])
        × (contents h' ≡ contents heap)
        × (h'.live ≡ update heap.live 20 false))
      (q_free 9 queue 20 heap)
q_free-without_example =
    q_free-without 9 20 entries queue heap queue-IsQueue (omega arith) refl (omega arith)

free_first : Returns (λ (q', h'). q' ≡ record { head = 20; tail = 20 }) (q_free 9 queue 10 heap)
unfolding q_free
free_first = refl

free_twice : (q_free 9 queue 40 heap) ≡ abort
unfolding q_free
free_twice = refl
