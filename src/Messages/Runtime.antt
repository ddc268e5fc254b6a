-- ===== src/Messages/Runtime.antt =====
-- What messages/messages.c relies on in the asn1scc run-time, on streams that stand at a byte.
use muxer.Base.{
  ℕ, ◌+◌, ◌-◌, ◌≤◌, ◌<◌, ◌≡◌, true, List, [], ◌∷◌, ◌++◌, length, take, drop, replicate, All, ℤ, pos,
  IsSint, Bool,
}
use muxer.Pdu.Reading.{IsByte}
use muxer.Messages.{BitStream, BitCoding}

-- A stream into which these bytes were written, and that has room for so many more. Its buffer is
-- no longer than its count.
pub record Holds (strm : BitStream) (bytes : List ℕ) (room : ℕ) : Type 0 where
  pub aligned : strm.current_bit ≡ 0
  pub inside : length strm.buf ≤ strm.count
  pub written : take strm.current_byte strm.buf ≡ bytes
  pub free : drop strm.current_byte strm.buf ≡ replicate room 0

-- A stream from which these bytes are still to be read.
pub record Before (strm : BitStream) (bytes : List ℕ) : Type 0 where
  pub aligned : strm.current_bit ≡ 0
  pub inside : length strm.buf ≤ strm.count
  pub left : drop strm.current_byte strm.buf ≡ bytes

-- The read succeeds with this value, and these bytes are left.
abbrev pub Gives {ℓ} : {A : Type ℓ} → Bool × A × BitStream → A → List ℕ → Type ℓ
Gives (ret, v, strm) value rest = (ret ≡ true) × (v ≡ value) × Before strm rest

-- The run-time writes a number from 1 to 256 and a byte as one byte each. An unconstrained number
-- takes 2 to 9 bytes (its length and itself). Each is read back from what was written.
pub record IsCoding (rt : BitCoding) : Type 0 where
  pub integer_bytes : ℤ → List ℕ
  pub integer_bytes-IsByte : (v : ℤ) → IsSint v → All IsByte (integer_bytes v)
  pub length-integer_bytes :
      (v : ℤ) → IsSint v → (2 ≤ length (integer_bytes v)) × (length (integer_bytes v) ≤ 9)
  pub encode_unconstraint_writes :
      (strm : BitStream) (w : List ℕ) (room : ℕ) (v : ℤ)
      → Holds strm w room
      → IsSint v
      → length (integer_bytes v) ≤ room
      → Holds
          (rt.encode_unconstraint_whole_number strm v)
          (w ++ integer_bytes v)
          (room - length (integer_bytes v))
  pub encode_constraint_writes :
      (strm : BitStream) (w : List ℕ) (room v : ℕ)
      → Holds strm w room
      → 1 ≤ v
      → v ≤ 256
      → 1 ≤ room
      → Holds
          (rt.encode_constraint_whole_number strm (pos v) (pos 1) (pos 256))
          (w ++ (v - 1) ∷ [])
          (room - 1)
  pub append_byte0_writes :
      (strm : BitStream) (w : List ℕ) (room b : ℕ)
      → Holds strm w room
      → b < 256
      → 1 ≤ room
      → Holds (rt.append_byte0 strm b) (w ++ b ∷ []) (room - 1)
  pub decode_unconstraint_reads :
      (strm : BitStream) (v : ℤ) (rest : List ℕ)
      → Before strm (integer_bytes v ++ rest)
      → IsSint v
      → Gives (rt.decode_unconstraint_whole_number strm) v rest
  pub decode_constraint_reads :
      (strm : BitStream) (b : ℕ) (rest : List ℕ)
      → Before strm (b ∷ rest)
      → b < 256
      → Gives (rt.decode_constraint_whole_number strm (pos 1) (pos 256)) (pos (b + 1)) rest
  pub read_byte_reads :
      (strm : BitStream) (b : ℕ) (rest : List ℕ)
      → Before strm (b ∷ rest)
      → Gives (rt.read_byte strm) b rest
