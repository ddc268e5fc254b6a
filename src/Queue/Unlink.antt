-- ===== src/Queue/Unlink.antt =====
-- The loop of `q_free` in common/queue.c, behind an entry of a linked list.
use muxer.Base.{
  ℕ, zero, suc, ◌≡◌, ◌≢◌, ◌<◌, refl, true, false, not, List, [], ◌∷◌, ◌==◌, has, keep, arith,
  length, Outcome, ok, abort, out_of_fuel, Returns, Bool-cases, inl, inr, ap, ◌∙◌, sym,
}
use muxer.Queue.{Heap, null, update, unlink_loop}
use muxer.Queue.Linked.{
  first, last_from, Linked, Linked-frame, update_ne, update_self, ne_of_has, test_ne,
}

-- The entries but one.
abbrev pub without : ℕ → List ℕ → List ℕ
without qe = keep (λ x. not (x == qe))

pub without_absent : (qe : ℕ) (xs : List ℕ) → has qe xs ≡ false → without qe xs ≡ xs
without_absent qe [] out = refl
without_absent qe (x ∷ xs) out = ground (arith, without_absent qe xs)

pub has-without : (a qe : ℕ) (xs : List ℕ) → has a xs ≡ false → has a (without qe xs) ≡ false
has-without a qe [] out = refl
has-without a qe (x ∷ xs) out = ground (arith, has-without a qe xs)

pub has-without_self : (qe : ℕ) (xs : List ℕ) → has qe (without qe xs) ≡ false
has-without_self qe [] = refl
has-without_self qe (x ∷ xs) = ground (arith, has-without_self qe xs)

-- What the loop does behind the entry `p`: only `next` pointers of the list change.
pub record Unlinked (h : Heap) (qe p : ℕ) (xs : List ℕ) (r : ℕ × Heap) : Type 0 where
  pub linked : Linked r.1 (p ∷ without qe xs)
  pub prev : r.0 ≡ last_from p (without qe xs)
  pub same : (a : ℕ) → has a (p ∷ xs) ≡ false → r.1.next a ≡ h.next a
  pub live : r.1.live ≡ h.live
  pub ref : r.1.ref ≡ h.ref

Unlinked-hit :
    (h : Heap) (qe p : ℕ) (xs : List ℕ) (x v : ℕ)
    → (x == qe) ≡ true
    → (o : Outcome (ℕ × Heap))
    → Returns (Unlinked (record h { next = update h.next p v }) qe p xs) o
    → Returns (Unlinked h qe p (x ∷ xs)) o
Unlinked-hit h qe p xs x v hit (ok r) u = record {
  linked = rw hit u.linked;
  prev = rw hit u.prev;
  same = λ a out. u.same a (ground arith) ∙ update_ne h.next p a v (ground arith);
  live = u.live;
  ref = u.ref;
}
Unlinked-hit h qe p xs x v hit abort u = absurd u
Unlinked-hit h qe p xs x v hit out_of_fuel u = absurd u

Unlinked-miss :
    (h : Heap) (qe p : ℕ) (xs : List ℕ) (x : ℕ)
    → Linked h (p ∷ x ∷ xs)
    → (x == qe) ≡ false
    → (o : Outcome (ℕ × Heap)) → Returns (Unlinked h qe x xs) o
    → Returns (Unlinked h qe p (x ∷ xs)) o
Unlinked-miss h qe p xs x (ne, live, next, out, l) miss (ok r) u = record {
  linked = rw miss (
    ne,
    ap (λ f. f p) u.live ∙ live,
    u.same p out ∙ next,
    ground (arith, has-without p qe xs),
    u.linked,
  );
  prev = rw miss u.prev;
  same = λ a absent. u.same a (ground arith);
  live = u.live;
  ref = u.ref;
}
Unlinked-miss h qe p xs x l miss abort u = absurd u
Unlinked-miss h qe p xs x l miss out_of_fuel u = absurd u

pub unlink_loop-Unlinked :
    (fuel qe p : ℕ) (xs : List ℕ) (h : Heap)
    → Linked h (p ∷ xs)
    → length xs < fuel
    → Returns (Unlinked h qe p xs) (unlink_loop fuel qe p (first xs) h)
unfolding unlink_loop
unlink_loop-Unlinked zero qe p xs h l f = absurd (omega arith)
unlink_loop-Unlinked (suc fuel) qe p [] h l f = record {
  linked = l;
  prev = refl;
  same = λ a out. refl;
  live = refl;
  ref = refl;
}
unlink_loop-Unlinked (suc fuel) qe p (x ∷ xs) h (ne, live, next, out, (ne', live', next', out', l))
      f =
    elim (Bool-cases (x == qe)) [
      | inl hit ↦
          rw
            (
              unlink_loop,
              test_ne x null ne',
              test_ne x null ne',
              live',
              hit,
              test_ne p null ne,
              live,
              next',
            )
            (Unlinked-hit h qe p xs x (first xs) hit _ (
              unlink_loop-Unlinked fuel qe p xs (record h { next = update h.next p (first xs) })
                (
                  ne,
                  live,
                  update_self h.next p (first xs),
                  ground arith,
                  Linked-frame h (record h { next = update h.next p (first xs) }) xs kept l,
                )
                (omega arith)))
      | inr miss ↦
          rw (unlink_loop, test_ne x null ne', test_ne x null ne', live', miss, next')
            (Unlinked-miss h qe p xs x (ne, live, next, out, (ne', live', next', out', l)) miss _
              (unlink_loop-Unlinked fuel qe x xs h (ne', live', next', out', l) (omega arith)))
    ]
  where
    kept :
        (a : ℕ)
        → has a xs ≡ true
        → (h.live a ≡ h.live a) × (update h.next p (first xs) a ≡ h.next a)
    kept a i = (
      refl,
      update_ne h.next p a (first xs) (λ e. ne_of_has p a (x ∷ xs) out (ground arith) (sym e)),
    )

pub last_from-without :
    (p qe : ℕ) (xs : List ℕ) → qe ≢ last_from p xs → last_from p (without qe xs) ≡ last_from p xs
last_from-without p qe [] ne = refl
last_from-without p qe (x ∷ []) ne = ground arith
last_from-without p qe (x ∷ y ∷ ys) ne = elim (Bool-cases (x == qe)) [
  | inl hit ↦ rw hit (last_from-without p qe (y ∷ ys) ne)
  | inr miss ↦ rw miss (last_from-without x qe (y ∷ ys) ne)
]
