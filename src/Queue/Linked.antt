-- ===== src/Queue/Linked.antt =====
-- When a queue on the heap holds a list of entries.
use muxer.Base.{
  ℕ, ◌≡◌, ◌≢◌, refl, true, false, ◌||◌, List, [], ◌∷◌, ◌++◌, ◌==◌, has, arith, map, ap,
}
use muxer.Queue.{Heap, Queue, null, update}

abbrev pub first : List ℕ → ℕ
first [] = null
first (x ∷ xs) = x

-- The last entry of a list behind the entry `p`.
abbrev pub last_from : ℕ → List ℕ → ℕ
last_from p [] = p
last_from p (x ∷ xs) = last_from x xs

-- The `next` pointers lead through these distinct live entries, and then to NULL.
abbrev pub Linked : Heap → List ℕ → Type 0
Linked h [] = Unit {0}
Linked h (x ∷ xs) =
    (x ≢ null) × (h.live x ≡ true) × (h.next x ≡ first xs) × (has x xs ≡ false) × Linked h xs

pub record IsQueue (h : Heap) (q : Queue) (xs : List ℕ) : Type 0 where
  pub linked : Linked h xs
  pub head : q.head ≡ first xs
  pub tail : q.tail ≡ last_from null xs

-- What the entries refer to: the queue as the program uses it.
abbrev pub contents : Heap → List ℕ → List ℕ
contents h = map h.ref

pub has-last_from : (p : ℕ) (xs : List ℕ) → has (last_from p xs) (p ∷ xs) ≡ true
has-last_from p [] = ground arith
has-last_from p (x ∷ xs) = ground (arith, has-last_from x xs)

pub has-append : (a : ℕ) (xs ys : List ℕ) → has a (xs ++ ys) ≡ (has a xs || has a ys)
has-append a [] ys = refl
has-append a (x ∷ xs) ys = ground (arith, has-append a xs ys)

-- A change elsewhere on the heap leaves a list linked.
pub Linked-frame :
    (h h' : Heap) (xs : List ℕ)
    → ((a : ℕ) → has a xs ≡ true → (h'.live a ≡ h.live a) × (h'.next a ≡ h.next a))
    → Linked h xs
    → Linked h' xs
Linked-frame h h' [] same l = tt
Linked-frame h h' (x ∷ xs) same (ne, live, next, out, l) =
    let s = same x (ground arith) in
    (ne, ground arith, ground arith, out, Linked-frame h h' xs (λ a i. same a (ground arith)) l)

pub last_from-last : (p x : ℕ) (xs : List ℕ) → last_from p (xs ++ x ∷ []) ≡ x
last_from-last p x [] = refl
last_from-last p x (y ∷ ys) = last_from-last y x ys

pub update_ne {ℓ} : {A : Type ℓ} (f : ℕ → A) (p a : ℕ) (v : A) → a ≢ p → update f p v a ≡ f a
update_ne f p a v ne = ground arith

pub update_self {ℓ} : {A : Type ℓ} (f : ℕ → A) (p : ℕ) (v : A) → update f p v p ≡ v
update_self f p v = ground arith

-- What is in a list differs from what is not.
pub ne_of_has : (p a : ℕ) (xs : List ℕ) → has p xs ≡ false → has a xs ≡ true → p ≢ a
ne_of_has p a xs out there e = cc (ap (λ b. has b xs) e)

pub Linked-last :
    (h : Heap) (p : ℕ) (xs : List ℕ)
    → Linked h (p ∷ xs)
    → (last_from p xs ≢ null) × (h.live (last_from p xs) ≡ true)
Linked-last h p [] l = (l.0, l.1)
Linked-last h p (x ∷ xs) l = Linked-last h x xs l.4

pub test_ne : (a b : ℕ) → a ≢ b → (a == b) ≡ false
test_ne a b ne = ground arith

pub ne_of_test : (a b : ℕ) → (a == b) ≡ false → a ≢ b
ne_of_test a b h = ground arith
