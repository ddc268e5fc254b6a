-- ===== src/Config/Lines.antt =====
-- `read_line` of common/config.c, and the loop of `read_config` in muxer/global.c.
use muxer.Base.{
  ℕ, zero, suc, ◌+◌, ◌*◌, ◌%◌, ◌≤◌, ◌<◌, ◌≡◌, refl, arith, Bool, true, false, not, ◌&&◌, List, [],
  ◌∷◌, ◌++◌, ◌==◌, ltb, if◌then◌else◌, length, length-append, append-nil, some, sym, out_of_fuel,
  All, Outcome, ok, abort, ◌>>=◌, check, Bool-cases, inl, inr, ◌⊎◌, ap, ◌∙◌,
}
use muxer.Config.{
  Text, Config, ends_line, read_line_loop, read_line, before_nul, read_config_line,
  read_config_loop, read_config,
}

-- The length of a line whose NUL has no room behind it.
abbrev pub overflows : ℕ → Bool
overflows n = (n % 128 == 0) && ltb 0 n

-- What ends a line, and the file behind it.
abbrev pub stops : List ℕ → Bool
stops [] = true
stops (ch ∷ file) = ends_line ch

abbrev pub after : List ℕ → List ℕ × Bool
after [] = ([], true)
after (ch ∷ file) = (file, false)

room_lem :
    (m count : ℕ)
    → count ≤ 128 * suc m
    → (m ≡ 0) ⊎ (128 * m < count)
    → ltb count (128 * suc m) ≡ not (overflows count)
room_lem m count h (inl z) = ground arith
room_lem m count h (inr l) = ground arith

abbrev read_to : Text → List ℕ → ℕ → Outcome (Text × List ℕ × Bool)
read_to line tail n = if overflows n then abort else ok (line, (after tail).0, (after tail).1)

ended :
    (line : Text) (tail : List ℕ) (n : ℕ)
    → (check (not (overflows n)) >>= λ _. ok (line, (after tail).0, (after tail).1))
      ≡ read_to line tail n
ended line tail n = elim (Bool-cases (overflows n)) [ inl o ↦ rw o refl | inr o ↦ rw o refl ]

continued :
    (ch : ℕ) (line : Text) (tail : List ℕ) (n : ℕ)
    → (read_to line tail n >>= λ (l, rest, at_end). ok (ch ∷ l, rest, at_end))
      ≡ read_to (ch ∷ line) tail n
continued ch line tail n = elim (Bool-cases (overflows n)) [ inl o ↦ rw o refl | inr o ↦ rw o refl ]

behind : (m count : ℕ) → (m ≡ 0) ⊎ (128 * m < count) → (m ≡ 0) ⊎ (128 * m < suc count)
behind m count (inl z) = inl z
behind m count (inr l) = inr (omega arith)

more_room : (m : ℕ) → 128 * suc m + 128 ≡ 128 * suc (suc m)
more_room m = omega arith

suc_add : (n l : ℕ) → n + suc l ≡ suc n + l
suc_add n l = omega arith

zero_add : (n : ℕ) → 0 + n ≡ n
zero_add n = omega arith

add_zero : (n : ℕ) → n + 0 ≡ n
add_zero n = omega arith

read_line_loop_end :
    (m count : ℕ) (tail : List ℕ)
    → count ≤ 128 * suc m
    → (m ≡ 0) ⊎ (128 * m < count)
    → stops tail ≡ true
    → read_line_loop count (128 * suc m) tail ≡ read_to [] tail count
unfolding read_line_loop
read_line_loop_end m count [] h k e = rw (room_lem m count h k) (ended [] [] count)
read_line_loop_end m count (ch ∷ file) h k e =
    rw (e, read_line_loop, room_lem m count h k) (ended [] (ch ∷ file) count)

read_line_loop_lem :
    (m count : ℕ) (line : Text) (tail : List ℕ)
    → count ≤ 128 * suc m
    → (m ≡ 0) ⊎ (128 * m < count)
    → All (λ ch. ends_line ch ≡ false) line
    → stops tail ≡ true
    → read_line_loop count (128 * suc m) (line ++ tail) ≡ read_to line tail (count + length line)
unfolding read_line_loop
read_line_loop_lem m count [] tail h k chars e =
    rw (add_zero count) (read_line_loop_end m count tail h k e)
read_line_loop_lem m count (ch ∷ line) tail h k chars e = elim (Bool-cases (count == 128 * suc m)) [
  | inl full ↦
      rw
        (
          chars.0,
          read_line_loop,
          full,
          more_room m,
          suc_add count (length line),
          read_line_loop_lem (suc m) (suc count) line tail (omega arith) (inr (ground arith))
              chars.1 e,
        )
        (continued ch line tail (suc count + length line))
  | inr room ↦
      rw
        (
          chars.0,
          read_line_loop,
          room,
          suc_add count (length line),
          read_line_loop_lem m (suc count) line tail (ground arith) (behind m count k) chars.1 e,
        )
        (continued ch line tail (suc count + length line))
]

-- A line that the program can read: it fits its buffer, and has no newline, EOF or NUL inside.
abbrev pub IsLine : Text → Type 0
IsLine line =
    (overflows (length line) ≡ false)
    × All (λ ch. ends_line ch ≡ false) line
    × All (λ ch. (ch == 0) ≡ false) line

before_nul_lem : (line : Text) → All (λ ch. (ch == 0) ≡ false) line → before_nul line ≡ line
unfolding before_nul
before_nul_lem [] h = refl
before_nul_lem (ch ∷ line) h = rw (h.0, before_nul_lem line h.1) refl

-- A line of the file, without NUL, is read up to the newline or the end of the file that ends it.
-- If its length is a positive multiple of 128, the NUL that closes the string is written behind the
-- buffer.
pub read_line_lem :
    (line : Text) (tail : List ℕ)
    → All (λ ch. ends_line ch ≡ false) line
    → All (λ ch. (ch == 0) ≡ false) line
    → stops tail ≡ true
    → read_line (line ++ tail)
      ≡ (if overflows (length line) then abort else ok (line, (after tail).0, (after tail).1))
unfolding read_line
read_line_lem line tail chars no_nul e =
    rw (read_line_loop_lem 0 0 line tail (omega arith) (inl refl) chars e, zero_add (length line))
      (elim (Bool-cases (overflows (length line))) [
        | inl o ↦ rw o refl
        | inr o ↦ rw (o, before_nul_lem line no_nul) refl
      ])

-- A file of lines, and what they do to a configuration one after the other.
unfoldable pub text_of : Text → List Text → List ℕ
text_of line [] = line
text_of line (next ∷ lines) = line ++ 10 ∷ text_of next lines

unfoldable pub read_all : Config → List Text → Outcome Config
read_all config [] = ok config
read_all config (line ∷ lines) = do config' ← read_config_line config line; read_all config' lines

read_line_fits :
    (line : Text) (tail : List ℕ)
    → IsLine line
    → stops tail ≡ true
    → read_line (line ++ tail) ≡ ok (line, (after tail).0, (after tail).1)
read_line_fits line tail h e = rw (read_line_lem line tail h.1 h.2 e, h.0) refl

and_then :
    (o : Outcome Config) (f g : Config → Outcome Config)
    → ((c : Config) → f c ≡ g c)
    → (o >>= f) ≡ (o >>= g)
and_then (ok c) f g h = h c
and_then abort f g h = refl
and_then out_of_fuel f g h = refl

length-text_of : (line : Text) (lines : List Text) → length lines ≤ length (text_of line lines)
unfolding text_of
length-text_of line [] = omega arith
length-text_of line (next ∷ lines) =
    omega (arith, length-append line (10 ∷ text_of next lines), length-text_of next lines)

read_config_loop_lem :
    (fuel : ℕ) (config : Config) (line : Text) (lines : List Text)
    → IsLine line
    → All IsLine lines
    → length lines < fuel
    → read_config_loop fuel config (text_of line lines) ≡ read_all config (line ∷ lines)
unfolding read_config_loop text_of read_all
read_config_loop_lem zero config line lines h hs f = absurd (omega arith)
read_config_loop_lem (suc fuel) config line [] h hs f =
    rw (sym (ap read_line (append-nil line)) ∙ read_line_fits line [] h refl) refl
read_config_loop_lem (suc fuel) config line (next ∷ lines) h hs f =
    rw (read_line_fits line (10 ∷ text_of next lines) h refl) (
      and_then (read_config_line config line) (λ c. read_config_loop fuel c (text_of next lines))
        (λ c. read_all c (next ∷ lines))
        (λ c. read_config_loop_lem fuel c next lines hs.0 hs.1 (omega arith)))

-- A file of lines that fit their buffers and have no newline, EOF or NUL inside sets the options
-- line by line, in order, and the loop over the file comes to its end.
pub read_config_lem :
    (config : Config) (line : Text) (lines : List Text)
    → IsLine line
    → All IsLine lines
    → read_config (some (text_of line lines)) config ≡ read_all config (line ∷ lines)
unfolding read_config
read_config_lem config line lines h hs =
    read_config_loop_lem (suc (length (text_of line lines))) config line lines h hs
      (omega (arith, length-text_of line lines))
