-- ===== src/Winsock/Messages.antt =====
-- The messages for socket errors that common/winsock.c builds.
use Prim.Native.String.{String}
use muxer.Base.{
  ℕ, zero, suc, ◌+◌, ◌*◌, ◌/◌, ◌%◌, ◌^◌, ◌-◌, ◌≤◌, ◌<◌, ◌≡◌, ◌≢◌, refl, arith, ◌∙◌, ap, sym, ◌==◌,
  ltb, lt→ltb, List, [], ◌∷◌, ◌++◌, append_assoc, append-nil, length, length-append, All,
  if◌then◌else◌, ok, Bool-cases, inl, inr, ℤ, pos, negsuc,
}
use muxer.Winsock.{
  codes, error_table, error_texts, with_ids, append_s, append_texts, digits, target_id, describe,
  chosen_error, last_error_message,
}

abbrev Table : Type 0
Table = List (ℕ × List ℕ)

-- The ids of the entries are distinct.
abbrev pub Distinct : Table → Type 0
Distinct [] = Unit
Distinct ((id, text) ∷ rest) = All (λ entry. entry.0 ≢ id) rest × Distinct rest

-- The text for an id; an id that is not in the table has none.
abbrev pub text_for : Table → ℕ → List ℕ
text_for [] id = []
text_for ((entry, text) ∷ rest) id = if entry == id then text else text_for rest id

abbrev IsShort : ℕ × List ℕ → Type 0
IsShort (id, text) = length text ≤ 35

append_s_lem :
    (buffer text : List ℕ)
    → length buffer + length text < 100
    → append_s buffer text ≡ ok (buffer ++ text)
unfolding append_s
append_s_lem buffer text room = rw (lt→ltb (length buffer + length text) 100 room)

append_texts_none :
    (table : Table) (id : ℕ) (buffer : List ℕ)
    → All (λ entry. entry.0 ≢ id) table
    → append_texts table id buffer ≡ ok buffer
unfolding append_texts
append_texts_none [] id buffer h = refl
append_texts_none ((entry, text) ∷ rest) id buffer h =
    ground (arith, append_texts_none rest id buffer h.1)

append_texts_lem :
    (table : Table) (id : ℕ) (buffer : List ℕ)
    → Distinct table
    → All IsShort table
    → length buffer ≤ 64
    → append_texts table id buffer ≡ ok (buffer ++ text_for table id)
unfolding append_texts
append_texts_lem [] id buffer distinct short room = ap ok (sym (append-nil buffer))
append_texts_lem ((entry, text) ∷ rest) id buffer distinct short room =
    elim (Bool-cases (entry == id)) [
      | inl hit ↦
          let same : entry ≡ id = ground arith in
          rw (hit, append_s_lem buffer text (omega (arith, short.0)))
            (append_texts_none rest id (buffer ++ text) (rw same at distinct.0))
      | inr miss ↦ rw (miss, append_texts) (append_texts_lem rest id buffer distinct.1 short.1 room)
    ]

text_for-length : (table : Table) (id : ℕ) → All IsShort table → length (text_for table id) ≤ 35
text_for-length [] id short = omega arith
text_for-length ((entry, text) ∷ rest) id short =
    ground (arith, short.0, text_for-length rest id short.1)

with_ids-IsShort :
    (ids : List ℕ) (texts : List String)
    → All (λ text. length (codes text) ≤ 35) texts
    → All IsShort (with_ids ids texts)
with_ids-IsShort [] texts short = tt
with_ids-IsShort (id ∷ ids) [] short = tt
with_ids-IsShort (id ∷ ids) (text ∷ texts) short = (short.0, with_ids-IsShort ids texts short.1)

error_table-IsShort : (ids : List ℕ) → All IsShort (error_table ids)
error_table-IsShort ids = (omega arith, with_ids-IsShort ids error_texts (omega arith))

length-digits : (fuel n : ℕ) → length (digits fuel n) ≤ fuel
unfolding digits
length-digits zero n = omega arith
length-digits (suc fuel) n =
    ground (
      arith,
      length-append (digits fuel (n / 10)) ((48 + n % 10) ∷ []),
      length-digits fuel (n / 10),
    )

-- The number that digits stand for, behind others that stand for `high`.
abbrev pub value : List ℕ → ℕ → ℕ
value [] high = high
value (d ∷ ds) high = value ds (high * 10 + (d - 48))

value-append : (xs ys : List ℕ) (high : ℕ) → value (xs ++ ys) high ≡ value ys (value xs high)
value-append [] ys high = refl
value-append (d ∷ xs) ys high = value-append xs ys (high * 10 + (d - 48))

fewer : (fuel n : ℕ) → n < 10 ^ suc fuel → n / 10 < 10 ^ fuel
fewer fuel n small = let e : 10 ^ suc fuel ≡ 10 ^ fuel * 10 = omega arith in omega arith

value-digits : (fuel n : ℕ) → n < 10 ^ fuel → value (digits fuel n) 0 ≡ n
unfolding digits
value-digits zero n small = omega arith
value-digits (suc fuel) n small =
    let ih : n / 10 < 10 ^ fuel → value (digits fuel (n / 10)) 0 ≡ n / 10 =
      value-digits fuel (n / 10) in
    let smaller : n / 10 < 10 ^ fuel = fewer fuel n small in
    elim (Bool-cases (ltb n 10)) [
      | inl one ↦ rw one (omega arith)
      | inr more ↦ rw more (
          value-append (digits fuel (n / 10)) ((48 + n % 10) ∷ []) 0
          ∙ (rw (ih smaller) (omega arith)))
    ]

length-target_id : (id : ℕ) → length (target_id id) ≤ 13
unfolding target_id
length-target_id id = omega (
  arith,
  length-append (codes " (") (digits 10 id ++ codes ")"),
  length-append (digits 10 id) (codes ")"),
  length-digits 10 id,
)

-- What stands behind the prefix and ": ".
abbrev pub description : List ℕ → ℤ → List ℕ
description ids (pos id) = text_for (error_table ids) id ++ target_id id
description ids (negsuc id) = codes "unknown error" ++ codes " (-1)"

-- An `int` of 32 bits that is not negative has at most ten digits.
abbrev pub IsInt : ℤ → Type 0
IsInt (pos id) = id < 2147483648
IsInt (negsuc id) = id < 2147483648

length-description : (ids : List ℕ) (id : ℤ) → length (description ids id) ≤ 48
length-description ids (pos id) = omega (
  arith,
  length-append (text_for (error_table ids) id) (target_id id),
  length-target_id id,
  text_for-length (error_table ids) id (error_table-IsShort ids),
)
length-description ids (negsuc id) = omega arith

describe_lem :
    (ids : List ℕ) (id : ℤ) (buffer : List ℕ)
    → Distinct (error_table ids)
    → length buffer ≤ 51
    → describe ids id buffer ≡ ok (buffer ++ description ids id)
unfolding describe
describe_lem ids (pos id) buffer distinct room =
    let text = text_for (error_table ids) id in
    let short = text_for-length (error_table ids) id (error_table-IsShort ids) in
    let few = length-target_id id in
    let both = length-append buffer text in
    rw
      (
        append_texts_lem (error_table ids) id buffer distinct (error_table-IsShort ids)
            (omega arith),
        append_s_lem (buffer ++ text) (target_id id) (omega arith),
      )
      (ap ok (append_assoc buffer text (target_id id)))
describe_lem ids (negsuc id) buffer distinct room =
    let both = length-append buffer (codes "unknown error") in
    rw
      (
        append_s_lem buffer (codes "unknown error") (omega arith),
        append_s_lem (buffer ++ codes "unknown error") (codes " (-1)") (omega arith),
      )
      (ap ok (append_assoc buffer (codes "unknown error") (codes " (-1)")))

IsInt-value : (id : ℤ) (n : ℕ) → IsInt id → id ≡ pos n → value (digits 10 n) 0 ≡ n
IsInt-value id n h e = let small : n < 2147483648 = rw e at h in value-digits 10 n (omega arith)

-- If the error numbers are distinct and not 0, the prefix has at most 49 characters, and the id, or
-- the last error if the id is 0, is an `int`, then the message is the prefix, a colon and a space,
-- and for an id that is not negative its text in the table, or nothing if it is not in the table,
-- and the id's digits in parentheses, which stand for the id; for every negative id it is "unknown
-- error (-1)" there. The message has less than 100 characters, so that nothing of it is cut off.
pub last_error_message_lem :
    (ids message_prefix : List ℕ) (error_id last_error : ℤ)
    → Distinct (error_table ids)
    → length message_prefix ≤ 49
    → IsInt (chosen_error error_id last_error)
    → (last_error_message ids message_prefix error_id last_error
        ≡ ok (message_prefix ++ codes ": " ++ description ids (chosen_error error_id last_error)))
      × (length (message_prefix ++ codes ": " ++ description ids (chosen_error error_id last_error))
          < 100)
      × ((n : ℕ) → chosen_error error_id last_error ≡ pos n → value (digits 10 n) 0 ≡ n)
unfolding last_error_message
last_error_message_lem ids message_prefix error_id last_error distinct room int =
    let id = chosen_error error_id last_error in
    let front = length-append message_prefix (codes ": ") in
    let whole = length-append (message_prefix ++ codes ": ") (description ids id) in
    let size = length-description ids id in
    (
      rw
          (
            append_s_lem [] message_prefix (omega arith),
            append_s_lem message_prefix (codes ": ") (omega arith),
          )
          (describe_lem ids id (message_prefix ++ codes ": ") distinct (omega arith)),
      omega arith,
      λ n. IsInt-value id n int,
    )
