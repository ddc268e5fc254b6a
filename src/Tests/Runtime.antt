-- ===== src/Tests/Runtime.antt =====
-- A small run-time for messages/messages.c that writes whole bytes: it has what is asked of the
-- asn1scc one. A number takes its length and eight bytes, the lowest first.
use muxer.Base.{
  ◌≤◌, length-append, length-drop, length-replicate, take-append-drop, to_uint-lt, ℕ, zero, suc,
  ◌+◌, ◌-◌, ◌*◌, ◌/◌, ◌%◌, ◌<◌, ◌≡◌, refl, arith, true, List, [], ◌∷◌, ◌++◌, length, take,
  take-append, drop, drop-append, replicate, ℤ, pos, negsuc, to_uint, to_sint, to_sint-to_uint, ap,
  ◌∙◌,
}
use native.Mathlib.Numerals.{unary_clauses}
use muxer.Messages.{BitStream, BitCoding}
use muxer.Messages.Runtime.{Holds, Before, IsCoding}

abbrev put : List ℕ → BitStream → BitStream
put bytes strm =
    let front = take strm.current_byte strm.buf in
    record strm {
      buf = (front ++ bytes) ++ drop (length bytes) (drop strm.current_byte strm.buf);
      current_byte = length (front ++ bytes);
    }

abbrev skip : ℕ → BitStream → BitStream
skip n strm = record strm { current_byte = strm.current_byte + n }

abbrev rest_of : BitStream → List ℕ
rest_of strm = drop strm.current_byte strm.buf

abbrev digits : ℕ → ℕ → List ℕ
digits zero u = []
digits (suc n) u = u % 256 ∷ digits n (u / 256)

abbrev value : List ℕ → ℕ
value [] = 0
value (b ∷ bytes) = b + 256 * value bytes

abbrev first : List ℕ → ℕ
first [] = 0
first (b ∷ _) = b

abbrev size_of : ℤ → ℕ
size_of (pos n) = n - 1
size_of (negsuc n) = 0

abbrev pub runtime : BitCoding
runtime = record {
  encode_constraint_whole_number = λ strm v low high. put (size_of v ∷ []) strm;
  encode_unconstraint_whole_number = λ strm v. put (8 ∷ digits 8 (to_uint v)) strm;
  append_byte0 = λ strm b. put (b ∷ []) strm;
  decode_constraint_whole_number =
      λ strm low high. (true, pos (first (rest_of strm) + 1), skip 1 strm);
  decode_unconstraint_whole_number =
      λ strm. (true, to_sint (value (take 8 (drop 1 (rest_of strm)))), skip 9 strm);
  read_byte = λ strm. (true, first (rest_of strm), skip 1 strm);
}

zeros-eq : {a b : ℕ} → a ≡ b → replicate {A = ℕ} a 0 ≡ replicate b 0
zeros-eq e = ap (λ k. replicate k 0) e

drop-replicate : (n room : ℕ) → drop {A = ℕ} n (replicate room 0) ≡ replicate (room - n) 0
drop-replicate zero room = zeros-eq (omega arith)
drop-replicate (suc n) zero = zeros-eq {a = 0} (omega arith)
drop-replicate (suc n) (suc room) = drop-replicate n room ∙ zeros-eq {a = room - n} (omega arith)

drop-drop : (n k : ℕ) (l : List ℕ) → drop (n + k) l ≡ drop k (drop n l)
drop-drop zero k l = ap (λ m. drop m l) (omega arith)
drop-drop (suc n) zero [] = simp unary_clauses refl
drop-drop (suc n) (suc k) [] = simp unary_clauses refl
drop-drop (suc n) k (x ∷ l) =
    let e : suc n + k ≡ suc (n + k) = omega arith in ap (λ m. drop m (x ∷ l)) e ∙ drop-drop n k l

-- The bytes replace as many others.
stays :
    (strm : BitStream) (bytes w : List ℕ) (room : ℕ)
    → Holds strm w room
    → length bytes ≤ room
    → length (put bytes strm).buf ≤ strm.count
stays strm bytes w room i fits =
    let front = take strm.current_byte strm.buf in
    let rest = drop strm.current_byte strm.buf in
    let a = length-append (front ++ bytes) (drop (length bytes) rest) in
    let b = length-append front bytes in
    let c = length-drop (length bytes) rest in
    let d = ap length (take-append-drop strm.current_byte strm.buf) in
    let e = length-append front rest in
    let f = ap length i.free in
    let g = length-replicate {A = ℕ} room 0 in let h = i.inside in omega arith

put-Holds :
    (bytes w : List ℕ) (strm : BitStream) (room : ℕ)
    → Holds strm w room
    → length bytes ≤ room
    → Holds (put bytes strm) (w ++ bytes) (room - length bytes)
put-Holds bytes w strm room i fits = record {
  aligned = i.aligned;
  inside = stays strm bytes w room i fits;
  written =
      take-append (take strm.current_byte strm.buf ++ bytes)
        (drop (length bytes) (drop strm.current_byte strm.buf))
      ∙ ap (λ l. l ++ bytes) i.written;
  free =
      drop-append (take strm.current_byte strm.buf ++ bytes)
        (drop (length bytes) (drop strm.current_byte strm.buf))
      ∙ ap (λ l. drop (length bytes) l) i.free
      ∙ drop-replicate (length bytes) room;
}

skip-Before :
    (n : ℕ) (bytes left : List ℕ) (strm : BitStream)
    → Before strm bytes
    → drop n bytes ≡ left
    → Before (skip n strm) left
skip-Before n bytes left strm i e = record {
  aligned = i.aligned;
  inside = i.inside;
  left = drop-drop strm.current_byte n strm.buf ∙ ap (λ l. drop n l) i.left ∙ e;
}

value-digits : (u : ℕ) → u < 0x1_0000_0000_0000_0000 → value (digits 8 u) ≡ u
value-digits u h = omega arith

pub runtime-IsCoding : IsCoding runtime
runtime-IsCoding = record {
  integer_bytes = λ v. 8 ∷ digits 8 (to_uint v);
  integer_bytes-IsByte = λ v h. ground arith;
  length-integer_bytes = λ v h. (omega arith, omega arith);
  encode_unconstraint_writes = λ strm w room v i h fits. put-Holds _ w strm room i fits;
  encode_constraint_writes = λ strm w room v i low high fits. put-Holds _ w strm room i fits;
  append_byte0_writes = λ strm w room b i h fits. put-Holds _ w strm room i fits;
  decode_unconstraint_reads = λ strm v rest i h. (
    refl,
    ap (λ l. to_sint (value (take 8 (drop 1 l)))) i.left
        ∙ ap to_sint (value-digits (to_uint v) (to_uint-lt v))
        ∙ to_sint-to_uint v h,
    skip-Before 9 _ rest strm i refl,
  );
  decode_constraint_reads = λ strm b rest i h.
      (refl, ap (λ l. pos (first l + 1)) i.left, skip-Before 1 (b ∷ rest) rest strm i refl);
  read_byte_reads =
      λ strm b rest i. (refl, ap first i.left, skip-Before 1 (b ∷ rest) rest strm i refl);
}
