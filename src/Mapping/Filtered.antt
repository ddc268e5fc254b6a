-- ===== src/Mapping/Filtered.antt =====
-- What REMOVE_MAPPINGS keeps and drops of the entries of a queue, as lists.
use muxer.Base.{
  ℕ, ◌≡◌, ◌≢◌, refl, ap, ◌∙◌, arith, Bool, true, false, not, List, [], ◌∷◌, ◌++◌, map, keep, has,
  ◌==◌, Bool-cases, inl, inr,
}
use muxer.State.{Mapping}
use muxer.Queue.{Heap, null}
use muxer.Queue.Linked.{first, Linked, has-append}
use muxer.Queue.Unlink.{without, without_absent}
use muxer.Mapping.{remove_mappings_for}

-- What a linked list says of an entry in its midst.
pub Linked-at :
    (h : Heap) (before : List ℕ) (qe : ℕ) (todo : List ℕ)
    → Linked h (before ++ qe ∷ todo)
    → (qe ≢ null)
      × (h.live qe ≡ true)
      × (h.next qe ≡ first todo)
      × (has qe todo ≡ false)
      × (has qe before ≡ false)
Linked-at h [] qe todo (ne, live, next, out, rest) = (ne, live, next, out, refl)
Linked-at h (x ∷ before) qe todo (ne, live, next, out, rest) =
    let (ne', live', next', out', absent) = Linked-at h before qe todo rest in
    (ne', live', next', out', ground (arith, out, absent, has-append x before (qe ∷ todo)))

without-append : (qe : ℕ) (xs ys : List ℕ) → without qe (xs ++ ys) ≡ without qe xs ++ without qe ys
without-append qe [] ys = refl
without-append qe (x ∷ xs) ys = ground (arith, without-append qe xs ys)

pub without-midst :
    (qe : ℕ) (before todo : List ℕ)
    → has qe before ≡ false
    → has qe todo ≡ false
    → without qe (before ++ qe ∷ todo) ≡ before ++ todo
without-midst qe before todo out out' =
    without-append qe before (qe ∷ todo)
    ∙ ground (arith, without_absent qe before out, without_absent qe todo out')

-- A filter by what the entries refer to.
abbrev pub kept : (ℕ → Bool) → (ℕ → ℕ) → List ℕ → List ℕ
kept hits ref = keep (λ a. not (hits (ref a)))

abbrev pub dropped : (ℕ → Bool) → (ℕ → ℕ) → List ℕ → List ℕ
dropped hits ref = keep (λ a. hits (ref a))

module _ (hits : ℕ → Bool) (f g : ℕ → ℕ) where
  pub kept_same :
      (xs : List ℕ) → ((a : ℕ) → has a xs ≡ true → f a ≡ g a) → kept hits f xs ≡ kept hits g xs
  kept_same [] same = refl
  kept_same (x ∷ xs) same = rw (same x (ground arith), kept_same xs (λ a i. same a (ground arith)))

  pub dropped_same :
      (xs : List ℕ)
      → ((a : ℕ) → has a xs ≡ true → f a ≡ g a)
      → (dropped hits f xs ≡ dropped hits g xs)
        × (map f (dropped hits f xs) ≡ map g (dropped hits g xs))
  dropped_same [] same = (refl, refl)
  dropped_same (x ∷ xs) same =
      let (ih, ih') = dropped_same xs (λ a i. same a (ground arith)) in
      let here = same x (ground arith) in
      elim (Bool-cases (hits (g x))) [
        | inl hit ↦ rw (here, hit) (ap (λ (l : List ℕ). x ∷ l) ih, λ i. here i ∷ ih' i)
        | inr miss ↦ rw (here, miss) (ih, ih')
      ]

pub has-dropped :
    (hits : ℕ → Bool) (ref : ℕ → ℕ) (a : ℕ) (xs : List ℕ)
    → hits (ref a) ≡ false
    → has a (dropped hits ref xs) ≡ false
has-dropped hits ref a [] miss = refl
has-dropped hits ref a (x ∷ xs) miss = elim (Bool-cases (hits (ref x))) [
  | inl hit ↦
      let ne : a ≢ x = λ e. cc (ap (λ z. hits (ref z)) e) in
      rw hit (ground (arith, has-dropped hits ref a xs miss))
  | inr other ↦ rw other (has-dropped hits ref a xs miss)
]

-- The entries that are kept refer to the mappings that the removal from the list keeps.
pub map-kept :
    (mapping_at : ℕ → Mapping) (socket : ℕ) (f g : ℕ → ℕ) (xs : List ℕ)
    → ((a : ℕ) → ((mapping_at (g a)).socket == socket) ≡ false → f a ≡ g a)
    → map (λ a. mapping_at (f a)) (kept (λ p. (mapping_at p).socket == socket) g xs)
      ≡ remove_mappings_for socket (map (λ a. mapping_at (g a)) xs)
unfolding remove_mappings_for
map-kept mapping_at socket f g [] same = refl
map-kept mapping_at socket f g (x ∷ xs) same =
    let ih = map-kept mapping_at socket f g xs same in
    elim (Bool-cases ((mapping_at (g x)).socket == socket)) [
      | inl hit ↦ rw hit ih
      | inr miss ↦ rw (miss, same x miss) (ap (λ (l : List Mapping). mapping_at (g x) ∷ l) ih)
    ]
