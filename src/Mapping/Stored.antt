-- ===== src/Mapping/Stored.antt =====
-- The macro REMOVE_MAPPINGS of muxer/mapping.c on the linked queue itself. An entry refers to a
-- mapping by its address.
use muxer.Base.{
  ℕ, zero, suc, true, false, not, List, [], ◌∷◌, ◌==◌, Outcome, ok, out_of_fuel, ◌>>=◌, ◌>>◌, check,
}
use muxer.State.{Mapping}
use muxer.Queue.{Heap, Queue, null, update, is_null, deref, q_free}

module _ (mapping_at : ℕ → Mapping) where
  -- The loop from the entry `qe` on: the queue, the heap, and the addresses of the mappings that
  -- were freed. `room` is the fuel of `q_free`.
  unfoldable pub remove_loop : ℕ → ℕ → ℕ → ℕ → Queue → Heap → Outcome (Queue × Heap × List ℕ)
  unfolding q_free
  remove_loop zero room socket qe q h = out_of_fuel
  remove_loop (suc fuel) room socket qe q h = elim (is_null qe) [
    | true ↦ ok (q, h, [])
    | false ↦ do
      deref h qe
      let p = h.ref qe
      check (not (is_null p))
      elim ((mapping_at p).socket == socket) [
        | true ↦ do
          (q', h') ← q_free room q qe (record h { ref = update h.ref qe null })
          (q'', h'', freed) ← remove_loop fuel room socket (h.next qe) q' h'
          ok (q'', h'', p ∷ freed)
        | false ↦ remove_loop fuel room socket (h.next qe) q h
      ]
  ]

  -- The function that the macro defines for a queue.
  unfoldable pub remove_queued_mappings : ℕ → ℕ → Queue → Heap → Outcome (Queue × Heap × List ℕ)
  unfolding remove_loop
  remove_queued_mappings fuel socket q h = remove_loop fuel fuel socket q.head q h
