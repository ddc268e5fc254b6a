-- ===== src/Tests/Mappings.antt =====
-- muxer/mapping.c and muxer/message.c on a linked queue of three entries.
use muxer.Base.{
  ℕ, ◌+◌, ◌≡◌, refl, List, [], ◌∷◌, map, not, ◌||◌, ◌&&◌, ◌==◌, if◌then◌else◌, has, arith, Returns,
}
use muxer.State.{Mapping}
use muxer.Queue.{Heap, Queue, null}
use muxer.Queue.Linked.{IsQueue, contents}
use muxer.Mapping.{remove_mappings_for}
use muxer.Mapping.Stored.{remove_queued_mappings}
use muxer.Message.Stored.{free_queued_messages}
use muxer.Message.Emptying.{free_queued_messages-Emptied}
use muxer.Mapping.Unlinking.{remove_queued_mappings-remove_mappings_for}

-- Entries at 10, 20 and 30 refer to what is at 11, 21 and 31.
abbrev heap : Heap
heap = record {
  live = λ a. a == 10 || (a == 20 || a == 30);
  next = λ a. if a == 10 then 20 else (if a == 20 then 30 else 0);
  timestamp = λ a. 0;
  ref = λ a. a + 1;
}

abbrev entries : List ℕ
entries = 10 ∷ 20 ∷ 30 ∷ []

abbrev queue : Queue
queue = record { head = 10; tail = 30 }

queue-IsQueue : IsQueue heap queue entries
queue-IsQueue = record { linked = ground arith; head = refl; tail = refl }

-- The second mapping is for socket 6, the others are for socket 5.
abbrev mapping_at : ℕ → Mapping
mapping_at p = record {
  socket = if p == 21 then 6 else 5;
  invokeid_original = 3;
  invokeid_generated = p;
}

remove_queued_mappings-remove_mappings_for_example :
    Returns
      (λ (q', h', freed).
        IsQueue h' q' (20 ∷ [])
        × (map (λ a. mapping_at (h'.ref a)) (20 ∷ [])
            ≡ remove_mappings_for 5 (map (λ a. mapping_at (a + 1)) entries))
        × (freed ≡ 11 ∷ 31 ∷ [])
        × ((a : ℕ) → h'.live a ≡ (not (has a (10 ∷ 30 ∷ [])) && heap.live a)))
      (remove_queued_mappings mapping_at 9 5 queue heap)
remove_queued_mappings-remove_mappings_for_example =
    remove_queued_mappings-remove_mappings_for mapping_at 5 9 entries queue heap queue-IsQueue
      (λ a i. ground arith) (omega arith)

free_queued_messages-Emptied_example :
    Returns
      (λ (q', h', freed).
        (q' ≡ record { head = null; tail = null })
        × (freed ≡ 11 ∷ 21 ∷ 31 ∷ [])
        × ((a : ℕ) → h'.live a ≡ (not (has a entries) && heap.live a))
        × (contents h' ≡ contents heap))
      (free_queued_messages 9 queue heap)
free_queued_messages-Emptied_example =
    free_queued_messages-Emptied 9 entries queue heap queue-IsQueue (λ a i. ground arith)
      (omega arith)
