-- ===== src/Queue/Put.antt =====
-- `q_put` and `q_get` of common/queue.h on a queue that holds a list of entries.
use muxer.Base.{
  ℕ, zero, suc, ◌≡◌, ◌≢◌, ◌<◌, refl, true, false, List, [], ◌∷◌, ◌++◌, if◌then◌else◌, has, arith,
  length, map, Outcome, ok, Returns, abort, out_of_fuel, eq_refl, Bool-cases, inl, inr, ap, ◌∙◌,
  sym,
}
use mathlib.Core.List.{tail}
use muxer.Queue.{Heap, Queue, null, update, find_entry, link_last, q_put, q_get}
use muxer.Queue.Linked.{
  first, last_from, Linked, IsQueue, contents, has-last_from, has-append, last_from-last, update_ne,
  Linked-last, test_ne, update_self, ne_of_has,
}

find_entry_lem :
    (fuel qe : ℕ) (xs : List ℕ) (h : Heap)
    → Linked h xs
    → length xs < fuel
    → find_entry fuel qe (first xs) h ≡ ok (has qe xs)
unfolding find_entry
find_entry_lem zero qe xs h l f = absurd (omega arith)
find_entry_lem (suc fuel) qe [] h l f = refl
find_entry_lem (suc fuel) qe (x ∷ xs) h (ne, live, next, out, l) f =
    ground (arith, find_entry_lem fuel qe xs h l)

-- The heap after `qe` is linked behind the last entry `p`.
abbrev linked_behind : Heap → ℕ → ℕ → ℕ → Heap
linked_behind h p qe now = record h {
  next = update (update h.next p qe) qe null;
  timestamp = update h.timestamp qe now;
}

Linked-snoc :
    (h : Heap) (qe now p : ℕ) (xs : List ℕ)
    → qe ≢ null
    → h.live qe ≡ true
    → has qe (p ∷ xs) ≡ false
    → Linked h (p ∷ xs)
    → Linked (linked_behind h (last_from p xs) qe now) ((p ∷ xs) ++ qe ∷ [])
Linked-snoc h qe now p [] ne live out (ne', live', next, out', l) = ground arith
Linked-snoc h qe now p (x ∷ xs) ne live out (ne', live', next, out', l) =
    let last = last_from x xs in
    let p_ne_last : p ≢ last = ne_of_has p last (x ∷ xs) out' (has-last_from x xs) in
    let p_ne_qe : p ≢ qe = ground arith in
    (
      ne',
      live',
      update_ne (update h.next last qe) qe p null p_ne_qe
          ∙ update_ne h.next last p qe p_ne_last
          ∙ next,
      has-append p (x ∷ xs) (qe ∷ []) ∙ (rw out' (ground arith)),
      Linked-snoc h qe now x xs ne live (ground arith) l,
    )

abbrev Put : Heap → List ℕ → ℕ → Queue × Heap → Type 0
Put h xs qe (q', h') = IsQueue h' q' (xs ++ qe ∷ []) × (h'.ref ≡ h.ref) × (h'.live ≡ h.live)

link_last-Put :
    (now qe : ℕ) (xs : List ℕ) (q : Queue) (h : Heap)
    → IsQueue h q xs
    → qe ≢ null
    → h.live qe ≡ true
    → has qe xs ≡ false
    → Returns (Put h xs qe) (link_last now q qe h)
unfolding link_last
link_last-Put now qe [] q h is ne live out =
    rw (is.head, is.tail, (test_ne qe null ne), live)
      (
        record {
          linked = (ne, live, update_self h.next qe null, refl, tt);
          head = refl;
          tail = refl;
        },
        refl,
        refl,
      )
link_last-Put now qe (x ∷ xs) q h is ne live out =
    let nonempty : x ≢ null = is.linked.0 in
    let last_ok = Linked-last h x xs is.linked in
    rw
      (
        is.head,
        is.tail,
        test_ne x null nonempty,
        test_ne (last_from x xs) null last_ok.0,
        last_ok.1,
        test_ne qe null ne,
        live,
      )
      (
        record {
          linked = Linked-snoc h qe now x xs ne live out is.linked;
          head = refl;
          tail = sym (last_from-last x qe xs);
        },
        refl,
        refl,
      )

q_put_branches :
    (fuel now qe : ℕ) (xs : List ℕ) (q : Queue) (h : Heap)
    → IsQueue h q xs
    → qe ≢ null
    → length xs < fuel
    → q_put fuel now q qe h ≡ (if has qe xs then ok (q, h) else link_last now q qe h)
unfolding q_put
q_put_branches fuel now qe xs q h is ne f =
    let found : find_entry fuel qe q.head h ≡ ok (has qe xs) =
      rw is.head (find_entry_lem fuel qe xs h is.linked f) in
    rw (test_ne qe null ne, found)

-- With fuel beyond the length of a well-linked queue and a live entry that is not NULL, `q_put`
-- returns and the queue is well linked: a new entry stands at its end, an entry that the queue
-- holds already is left where it is. References and liveness do not change.
pub q_put-append :
    (fuel now qe : ℕ) (xs : List ℕ) (q : Queue) (h : Heap)
    → IsQueue h q xs
    → qe ≢ null
    → h.live qe ≡ true
    → length xs < fuel
    → Returns
        (λ (q', h').
          IsQueue h' q' (if has qe xs then xs else xs ++ qe ∷ [])
          × (contents h' ≡ contents h)
          × (h'.live ≡ h.live))
        (q_put fuel now q qe h)
q_put-append fuel now qe xs q h is ne live f =
    rw (q_put_branches fuel now qe xs q h is ne f) (elim (Bool-cases (has qe xs)) [
      | inl old ↦ rw old (is, refl, refl)
      | inr new ↦
          rw new (weaken (link_last now q qe h) (link_last-Put now qe xs q h is ne live new))
    ])
  where
    weaken :
        (o : Outcome (Queue × Heap))
        → Returns (Put h xs qe) o
        → Returns
            (λ (q', h').
              IsQueue h' q' (xs ++ qe ∷ []) × (contents h' ≡ contents h) × (h'.live ≡ h.live))
            o
    weaken (ok (q', h')) (is', refs, alive) = (is', ap map refs, alive)
    weaken abort r = absurd r
    weaken out_of_fuel r = absurd r

-- On a well-linked queue `q_get` returns the first entry and leaves a well-linked queue of the
-- others; an empty queue gives NULL and stays empty.
pub q_get-head :
    (xs : List ℕ) (q : Queue) (h : Heap)
    → IsQueue h q xs
    → Returns (λ (qe, q'). (qe ≡ first xs) × IsQueue h q' (tail xs)) (q_get q h)
unfolding q_get
q_get-head [] q h is =
    rw (is.head, is.tail) (refl, record { linked = tt; head = refl; tail = refl })
q_get-head (x ∷ []) q h is =
    let (ne, live, next, _, _) = is.linked in
    rw (is.head, is.tail, eq_refl x, test_ne x null ne, live)
      (refl, record { linked = tt; head = next; tail = refl })
q_get-head (x ∷ y ∷ ys) q h is =
    let (ne, live, next, out, rest) = is.linked in
    let last = last_from y ys in
    let inner : x ≢ last = ne_of_has x last (y ∷ ys) out (has-last_from y ys) in
    rw (is.head, is.tail, test_ne last x (λ e. inner (sym e)), test_ne x null ne, live)
      (refl, record { linked = rest; head = next; tail = refl })
