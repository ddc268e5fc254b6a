-- ===== src/Queue/Free.antt =====
-- `q_free` of common/queue.c on a queue that holds a list of entries.
use muxer.Base.{
  ℕ, ◌≡◌, ◌≢◌, ◌<◌, refl, true, false, not, ◌&&◌, List, [], ◌∷◌, ◌==◌, if◌then◌else◌, has, arith,
  length, map, Outcome, ok, abort, out_of_fuel, Returns, ◌>>=◌, check, Bool-cases, inl, inr, ap,
  ◌∙◌, sym, eq_refl,
}
use muxer.Queue.{Heap, Queue, null, update, unlink_loop, unlink_inner, unlink, q_free}
use muxer.Queue.Linked.{
  first, last_from, Linked, IsQueue, contents, has-last_from, Linked-frame, update_ne, ne_of_has,
  Linked-last, test_ne, ne_of_test,
}
use muxer.Queue.Unlink.{
  without, Unlinked, without_absent, has-without_self, unlink_loop-Unlinked, last_from-without,
}

-- What `unlink` and `q_free` leave of the queue and of the references.
abbrev Without : Heap → ℕ → List ℕ → Queue × Heap → Type 0
Without h qe xs (q', h') =
    IsQueue h' q' (without qe xs) × (contents h' ≡ contents h) × (h'.live ≡ h.live)

abbrev queue_of : List ℕ → Queue
queue_of xs = record { head = first xs; tail = last_from null xs }

eq-queue_of : (h : Heap) (q : Queue) (xs : List ℕ) → IsQueue h q xs → q ≡ queue_of xs
eq-queue_of h q xs is = λ i. record { head = is.head i; tail = is.tail i }

unlink_inner-Without :
    (fuel qe x : ℕ) (xs : List ℕ) (h : Heap)
    → Linked h (x ∷ xs)
    → (x == qe) ≡ false
    → length xs < fuel
    → Returns (Without h qe (x ∷ xs)) (unlink_inner fuel (queue_of (x ∷ xs)) qe h)
unfolding unlink_inner
unlink_inner-Without fuel qe x xs h l miss f =
    let (ne, live, next, out, rest) = l in
    rw (test_ne x null ne, live, next, test_ne (last_from x xs) null ((Linked-last h x xs l).0))
      (after (unlink_loop fuel qe x (first xs) h) (unlink_loop-Unlinked fuel qe x xs h l f))
  where
    after :
        (o : Outcome (ℕ × Heap))
        → Returns (Unlinked h qe x xs) o
        → Returns (Without h qe (x ∷ xs)) (
            o >>= λ (prev, h'). ok (
              if qe == last_from x xs then record { head = x; tail = prev } else queue_of (x ∷ xs),
              h',
            ))
    after (ok (prev, h')) u = elim (Bool-cases (qe == last_from x xs)) [
      | inl last ↦
          rw (miss, last)
            (record { linked = u.linked; head = refl; tail = u.prev }, ap map u.ref, u.live)
      | inr inner ↦
          rw (miss, inner)
            (
              record {
                linked = u.linked;
                head = refl;
                tail = sym (last_from-without x qe xs (ne_of_test qe (last_from x xs) inner));
              },
              ap map u.ref,
              u.live,
            )
    ]
    after abort u = absurd u
    after out_of_fuel u = absurd u

unlink_head-Without :
    (fuel qe : ℕ) (xs : List ℕ) (h : Heap)
    → Linked h (qe ∷ xs)
    → Returns (Without h qe (qe ∷ xs)) (unlink fuel (queue_of (qe ∷ xs)) qe h)
unfolding unlink
unlink_head-Without fuel qe [] h (ne, live, next, out, l) =
    rw (test_ne qe null ne, eq_refl qe, eq_refl qe)
      (record { linked = tt; head = refl; tail = refl }, refl, refl)
unlink_head-Without fuel qe (y ∷ ys) h (ne, live, next, out, l) =
    let last = last_from y ys in
    let inner : qe ≢ last = ne_of_has qe last (y ∷ ys) out (has-last_from y ys) in
    let last_ok = Linked-last h y ys l in
    rw
      (
        test_ne qe null ne,
        eq_refl qe,
        test_ne qe last inner,
        test_ne last null last_ok.0,
        live,
        without_absent qe (y ∷ ys) out,
        eq_refl qe,
      )
      (record { linked = l; head = next; tail = refl }, refl, refl)

unlink_miss :
    (fuel qe x : ℕ) (xs : List ℕ) (h : Heap)
    → x ≢ null
    → (x == qe) ≡ false
    → unlink fuel (queue_of (x ∷ xs)) qe h ≡ unlink_inner fuel (queue_of (x ∷ xs)) qe h
unfolding unlink
unlink_miss fuel qe x xs h ne miss =
    rw (test_ne x null ne, test_ne qe x (λ e. ne_of_test x qe miss (sym e)))

unlink-Without :
    (fuel qe : ℕ) (xs : List ℕ) (h : Heap)
    → Linked h xs
    → length xs < fuel
    → Returns (Without h qe xs) (unlink fuel (queue_of xs) qe h)
unfolding unlink
unlink-Without fuel qe [] h l f = (record { linked = tt; head = refl; tail = refl }, refl, refl)
unlink-Without fuel qe (x ∷ xs) h l f = elim (Bool-cases (x == qe)) [
  | inl hit ↦ let e : x ≡ qe = ground arith in rw e (unlink_head-Without fuel qe xs h (rw e at l))
  | inr miss ↦
      rw (unlink_miss fuel qe x xs h l.0 miss)
        (unlink_inner-Without fuel qe x xs h l miss (omega arith))
]

Freed-ne :
    (h h' : Heap) (qe : ℕ) (xs : List ℕ) (a : ℕ)
    → h'.live ≡ h.live
    → has a (without qe xs) ≡ true
    → update h.live qe false a ≡ h'.live a
Freed-ne h h' qe xs a alive i =
    let ne = ne_of_has qe a (without qe xs) (has-without_self qe xs) i in
    update_ne h.live qe a false (λ e. ne (sym e)) ∙ sym (ap (λ f. f a) alive)

-- With fuel beyond the length of a well-linked queue and a live entry that is not NULL, `q_free`
-- returns: the entry is out of the queue, wherever it stood, and no longer live; the others keep
-- their order, links and references. An entry that is not in the queue is only freed.
pub q_free-without :
    (fuel qe : ℕ) (xs : List ℕ) (q : Queue) (h : Heap)
    → IsQueue h q xs
    → qe ≢ null
    → h.live qe ≡ true
    → length xs < fuel
    → Returns
        (λ (q', h').
          IsQueue h' q' (without qe xs)
          × (contents h' ≡ contents h)
          × (h'.live ≡ update h.live qe false))
        (q_free fuel q qe h)
unfolding q_free
q_free-without fuel qe xs q h is ne live f =
    rw (eq-queue_of h q xs is, test_ne qe null ne)
      (after (unlink fuel (queue_of xs) qe h) (unlink-Without fuel qe xs h is.linked f))
  where
    after :
        (o : Outcome (Queue × Heap))
        → Returns (Without h qe xs) o
        → Returns
            (λ (q', h').
              IsQueue h' q' (without qe xs)
              × (contents h' ≡ contents h)
              × (h'.live ≡ update h.live qe false))
            (o >>= λ (q', h').
              (check (not false && h'.live qe) >>= λ _.
              ok (q', record h' { live = update h'.live qe false })))
    after (ok (q', h')) (is', refs, alive) =
        rw (alive, live)
          (
            record {
              linked =
                  Linked-frame h' (record h' { live = update h.live qe false }) (without qe xs)
                    (λ a i. (Freed-ne h h' qe xs a alive i, refl)) is'.linked;
              head = is'.head;
              tail = is'.tail;
            },
            refs,
            refl,
          )
    after abort u = absurd u
    after out_of_fuel u = absurd u
