-- ===== src/Queue.antt =====
-- common/queue.h and common/queue.c: a linked queue of entries on the heap. A pointer is a number
-- and NULL is 0; following a pointer to no live entry ends the run as a failed `assert` does.
pub mod Linked
pub mod Put
pub mod Unlink
pub mod Free
use muxer.Base.{
  ℕ, zero, suc, Bool, true, false, not, ◌&&◌, ◌||◌, ◌==◌, if◌then◌else◌, Outcome, ok, out_of_fuel,
  ◌>>=◌, ◌>>◌, check,
}

abbrev pub null : ℕ
null = 0

-- The entries of the heap, field by field, and which addresses hold one.
pub record Heap : Type 0 where
  pub live : ℕ → Bool
  pub next : ℕ → ℕ
  pub timestamp : ℕ → ℕ
  pub ref : ℕ → ℕ

-- `queue_t`.
pub record Queue : Type 0 where
  pub head : ℕ
  pub tail : ℕ

abbrev pub update {ℓ} : {A : Type ℓ} → (ℕ → A) → ℕ → A → ℕ → A
update f p v a = if a == p then v else f a

abbrev pub is_null : ℕ → Bool
is_null p = p == null

abbrev pub deref : Heap → ℕ → Outcome (Unit {0})
deref h p = check (not (is_null p) && h.live p)

-- `malloc` gives the address `qe`, or NULL, at which the first write fails.
unfoldable pub q_alloc : ℕ → ℕ → Heap → Outcome (ℕ × Heap)
q_alloc qe p h = do
  check (not (is_null p))
  check (not (is_null qe))
  ok (
    qe,
    record h {
      live = update h.live qe true;
      next = update h.next qe null;
      ref = update h.ref qe p;
    },
  )

-- The loop that looks for the entry in the queue.
unfoldable pub find_entry : ℕ → ℕ → ℕ → Heap → Outcome Bool
find_entry zero qe m_qe h = out_of_fuel
find_entry (suc fuel) qe m_qe h = elim (is_null m_qe) [
  | true ↦ ok false
  | false ↦ do
    deref h m_qe
    let rest = find_entry fuel qe (h.next m_qe) h
    if m_qe == qe then ok true else rest
]

-- What `q_put` does with an entry that is not in the queue yet.
unfoldable pub link_last : ℕ → Queue → ℕ → Heap → Outcome (Queue × Heap)
link_last now q qe h = do
  check (is_null q.tail || not (is_null q.head))
  check (is_null q.tail || h.live q.tail)
  let next = if is_null q.tail then h.next else update h.next q.tail qe
  deref h qe
  ok (
    record { head = if is_null q.head then qe else q.head; tail = qe },
    record h { next = update next qe null; timestamp = update h.timestamp qe now },
  )

unfoldable pub q_put : ℕ → ℕ → Queue → ℕ → Heap → Outcome (Queue × Heap)
unfolding find_entry link_last
q_put fuel now q qe h = do
  check (not (is_null qe))
  found ← find_entry fuel qe q.head h
  if found then ok (q, h) else link_last now q qe h

-- The entry taken off, or NULL.
unfoldable pub q_get : Queue → Heap → Outcome (ℕ × Queue)
q_get q h =
    let tail = if q.tail == q.head then null else q.tail in
    if is_null q.head
    then ok (null, record q { tail = tail })
    else (do deref h q.head; ok (q.head, record { head = h.next q.head; tail = tail }))

-- The loop of `q_free`: `m_qe_prev` at the end, and the heap.
unfoldable pub unlink_loop : ℕ → ℕ → ℕ → ℕ → Heap → Outcome (ℕ × Heap)
unlink_loop zero qe m_qe_prev m_qe h = out_of_fuel
unlink_loop (suc fuel) qe m_qe_prev m_qe h = elim (is_null m_qe) [
  | true ↦ ok (m_qe_prev, h)
  | false ↦ do
    deref h m_qe
    elim (m_qe == qe) [
      | true ↦ do
        deref h m_qe_prev
        unlink_loop fuel qe m_qe_prev (h.next m_qe)
            (record h { next = update h.next m_qe_prev (h.next m_qe) })
      | false ↦ unlink_loop fuel qe m_qe (h.next m_qe) h
    ]
]

-- The third case of `q_free`: the entry is not the head. That the tail is not NULL, which the loop
-- asserts in every round, is asked once.
unfoldable pub unlink_inner : ℕ → Queue → ℕ → Heap → Outcome (Queue × Heap)
unfolding unlink_loop
unlink_inner fuel q qe h = do
  deref h q.head
  check (not (is_null q.tail) || is_null (h.next q.head))
  (m_qe_prev, h') ← unlink_loop fuel qe q.head (h.next q.head) h
  ok (if qe == q.tail then record q { tail = m_qe_prev } else q, h')

unfoldable pub unlink : ℕ → Queue → ℕ → Heap → Outcome (Queue × Heap)
unfolding unlink_inner
unlink fuel q qe h =
    if is_null q.head
    then (do check (is_null q.tail); ok (q, h))
    else if qe == q.head && qe == q.tail
    then ok (record { head = null; tail = null }, h)
    else if qe == q.head
    then (do
      check (not (is_null q.tail))
      deref h q.head
      ok (record q { head = h.next q.head }, h))
    else unlink_inner fuel q qe h

unfoldable pub q_free : ℕ → Queue → ℕ → Heap → Outcome (Queue × Heap)
unfolding unlink
q_free fuel q qe h = do
  check (not (is_null qe))
  (q', h') ← unlink fuel q qe h
  deref h' qe
  ok (q', record h' { live = update h'.live qe false })
