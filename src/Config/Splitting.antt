-- ===== src/Config/Splitting.antt =====
-- `split` of common/config.c.
use muxer.Base.{ℕ, ◌≡◌, refl, arith, false, [], ◌∷◌, ◌++◌, ◌==◌, has, none, some, eq_refl}
use muxer.Config.{Text, starts_with, split}

-- A text is split at the first delimiter of one character, whatever stands behind it; a text
-- without the delimiter is not split.
pub split_lem :
    (d : ℕ) (key value : Text)
    → has d key ≡ false
    → (split (key ++ d ∷ value) (d ∷ []) ≡ some (key, value)) × (split key (d ∷ []) ≡ none)
unfolding split starts_with
split_lem d [] value out = (rw (split, eq_refl d) refl, refl)
split_lem d (ch ∷ key) value out =
    let ne : (d == ch) ≡ false = ground arith in
    let ih = split_lem d key value (ground arith) in
    (rw (split, ne, ih.0) refl, rw (split, ne, ih.1) refl)
