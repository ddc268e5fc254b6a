-- ===== src/Message/Stored.antt =====
-- The macro FREE_Q_MESSAGES of muxer/message.c on the linked queue itself.
use muxer.Base.{
  ℕ, zero, suc, true, false, not, List, [], ◌∷◌, Outcome, ok, out_of_fuel, ◌>>=◌, ◌>>◌, check,
}
use muxer.Queue.{Heap, Queue, is_null, deref, q_get, q_free}

-- What the loop does with the entry that `q_get` took off: the address of the message that is
-- freed, the queue and the heap. `room` is the fuel of `q_free`.
unfoldable pub free_entry : ℕ → ℕ → Queue → Heap → Outcome (ℕ × Queue × Heap)
unfolding q_free
free_entry room qe q h = do
  deref h qe
  let tmp = h.ref qe
  check (not (is_null tmp))
  (q', h') ← q_free room q qe h
  ok (tmp, q', h')

-- The loop while there is a head: the queue, the heap, and the addresses of the messages that were
-- freed.
unfoldable pub free_loop : ℕ → ℕ → Queue → Heap → Outcome (Queue × Heap × List ℕ)
unfolding q_get free_entry
free_loop zero room q h = out_of_fuel
free_loop (suc fuel) room q h = elim (is_null q.head) [
  | true ↦ ok (q, h, [])
  | false ↦ do
    (qe, q1) ← q_get q h
    elim (is_null qe) [
      | true ↦ free_loop fuel room q1 h
      | false ↦ do
        (tmp, q2, h2) ← free_entry room qe q1 h
        (q3, h3, freed) ← free_loop fuel room q2 h2
        ok (q3, h3, tmp ∷ freed)
    ]
]

-- The function that the macro defines for a queue.
unfoldable pub free_queued_messages : ℕ → Queue → Heap → Outcome (Queue × Heap × List ℕ)
unfolding free_loop
free_queued_messages fuel q h = free_loop fuel fuel q h
