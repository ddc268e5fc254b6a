-- ===== src/Base/Outcomes.antt =====
-- What C code comes to. `ok v`: it returns. `abort`: it fails an `assert` or calls `exit`.
-- `out_of_fuel` is no behaviour of the code: a loop of the model had too few rounds.
use mathlib.Core.Path.{◌≡◌, refl}
use mathlib.Core.Bool.{Bool, true, false}

pub data Outcome {ℓ} (A : Type ℓ) : Type ℓ where
  ok : A → Outcome A
  abort : Outcome A
  out_of_fuel : Outcome A

infixl 5 ◌>>=◌ ◌>>◌
abbrev pub ◌>>=◌ {ℓ κ} : {A : Type ℓ} {B : Type κ} → Outcome A → (A → Outcome B) → Outcome B
ok a >>= k = k a
abort >>= k = abort
out_of_fuel >>= k = out_of_fuel

abbrev pub ◌>>◌ {ℓ} : {B : Type ℓ} → Outcome (Unit {0}) → Outcome B → Outcome B
m >> k = m >>= λ _. k

-- C's `assert`.
abbrev pub check : Bool → Outcome (Unit {0})
check true = ok tt
check false = abort

-- A chain that returns has a first step that returns.
pub >>=-eq-ok {ℓ κ} :
    {A : Type ℓ} {B : Type κ} (m : Outcome A) (k : A → Outcome B) {b : B}
    → (m >>= k) ≡ ok b
    → (a : A) × (m ≡ ok a) × (k a ≡ ok b)
>>=-eq-ok (ok a) k h = (a, refl, h)
>>=-eq-ok abort k h = cc
>>=-eq-ok out_of_fuel k h = cc

-- The code returns, and what it returns satisfies the predicate.
abbrev pub Returns {ℓ} : {A : Type ℓ} → (A → Type 0) → Outcome A → Type 0
Returns P (ok a) = P a
Returns P abort = ⊥
Returns P out_of_fuel = ⊥

-- The code ends: it returns what satisfies the predicate, or it aborts.
abbrev pub Ends {ℓ} : {A : Type ℓ} → (A → Type 0) → Outcome A → Type 0
Ends P (ok a) = P a
Ends P abort = Unit {0}
Ends P out_of_fuel = ⊥

pub >>=-Ends {ℓ κ} :
    {A : Type ℓ} {B : Type κ} (P : A → Type 0) (Q : B → Type 0) (m : Outcome A) (k : A → Outcome B)
    → Ends P m
    → ((a : A) → P a → Ends Q (k a))
    → Ends Q (m >>= k)
>>=-Ends P Q (ok a) k h step = step a h
>>=-Ends P Q abort k h step = tt
>>=-Ends P Q out_of_fuel k h step = absurd h

pub check-Ends {ℓ} :
    {B : Type ℓ} (Q : B → Type 0) (b : Bool) (o : Outcome B) → Ends Q o → Ends Q (check b >> o)
check-Ends Q true o h = h
check-Ends Q false o h = tt

pub >>=-Returns {ℓ κ} :
    {A : Type ℓ} {B : Type κ} (P : A → Type 0) (Q : B → Type 0) (m : Outcome A) (k : A → Outcome B)
    → Returns P m
    → ((a : A) → P a → Returns Q (k a))
    → Returns Q (m >>= k)
>>=-Returns P Q (ok a) k h step = step a h
>>=-Returns P Q abort k h step = absurd h
>>=-Returns P Q out_of_fuel k h step = absurd h

-- What is returned satisfies the predicate.
pub Returns-ok {ℓ} :
    {A : Type ℓ} (P : A → Type 0) (m : Outcome A) {a : A} → m ≡ ok a → Returns P m → P a
Returns-ok P m e h = rw e at h

pub Returns-imp {ℓ} :
    {A : Type ℓ} (P Q : A → Type 0) (m : Outcome A)
    → ((a : A) → P a → Q a)
    → Returns P m
    → Returns Q m
Returns-imp P Q (ok a) f h = f a h
Returns-imp P Q abort f h = absurd h
Returns-imp P Q out_of_fuel f h = absurd h

-- What the code returns, if it returns, satisfies the predicate.
abbrev pub Whenever {ℓ} : {A : Type ℓ} → (A → Type 0) → Outcome A → Type 0
Whenever P (ok a) = P a
Whenever P abort = Unit {0}
Whenever P out_of_fuel = Unit {0}

pub >>=-Whenever {ℓ κ} :
    {A : Type ℓ} {B : Type κ} (P : A → Type 0) (Q : B → Type 0) (m : Outcome A) (k : A → Outcome B)
    → Whenever P m
    → ((a : A) → P a → Whenever Q (k a))
    → Whenever Q (m >>= k)
>>=-Whenever P Q (ok a) k h step = step a h
>>=-Whenever P Q abort k h step = tt
>>=-Whenever P Q out_of_fuel k h step = tt

-- A step of which nothing need be known.
pub >>=-Whenever_any {ℓ κ} :
    {A : Type ℓ} {B : Type κ} (Q : B → Type 0) (m : Outcome A) (k : A → Outcome B)
    → ((a : A) → Whenever Q (k a))
    → Whenever Q (m >>= k)
>>=-Whenever_any Q (ok a) k step = step a
>>=-Whenever_any Q abort k step = tt
>>=-Whenever_any Q out_of_fuel k step = tt

pub Whenever-ok {ℓ} :
    {A : Type ℓ} (P : A → Type 0) (m : Outcome A) {a : A} → m ≡ ok a → Whenever P m → P a
Whenever-ok P m e h = rw e at h

pub check-Whenever {ℓ} :
    {B : Type ℓ} (Q : B → Type 0) (b : Bool) (o : Outcome B)
    → Whenever Q o
    → Whenever Q (check b >> o)
check-Whenever Q true o h = h
check-Whenever Q false o h = tt

pub Whenever-imp {ℓ} :
    {A : Type ℓ} (P Q : A → Type 0) (m : Outcome A)
    → ((a : A) → P a → Q a)
    → Whenever P m
    → Whenever Q m
Whenever-imp P Q (ok a) f h = f a h
Whenever-imp P Q abort f h = tt
Whenever-imp P Q out_of_fuel f h = tt
