-- ===== src/Messages/Encoding.antt =====
-- What the encoders of messages/messages.c write.
use muxer.Base.{
  length-replicate, ℕ, ◌+◌, ◌-◌, ◌≤◌, ◌≡◌, refl, arith, true, le→leb, List, [], ◌∷◌, ◌++◌,
  append-nil, append_assoc, length, replicate, All, pos, IsSint, sym,
}
use muxer.Pdu.{buffer_ksize}
use muxer.Pdu.Reading.{IsByte}
use muxer.State.{InputType, OutputType}
use muxer.Messages.{
  BitStream, BitCoding, attached, encoded, append_bytes, size_valid, input_type_encode,
  input_type_is_constraint_valid, output_type_encode, output_type_is_constraint_valid,
}
use muxer.Messages.Runtime.{Holds, IsCoding}

-- The octet strings that the messages allow.
abbrev pub IsOctets : List ℕ → Type 0
IsOctets val = (1 ≤ length val) × (length val ≤ 256) × All IsByte val

-- An octet string in a message: its size less one, and its bytes.
abbrev pub octets_bytes : List ℕ → List ℕ
octets_bytes val = (length val - 1) ∷ val

size_valid_lem : (err : ℕ) (val : List ℕ) → IsOctets val → size_valid err val ≡ (true, 0)
unfolding size_valid
size_valid_lem err val h = rw (le→leb 1 (length val) h.0, le→leb (length val) 256 h.1)

-- The messages that messages.asn1 allows.
abbrev pub IsInput : InputType → Type 0
IsInput val = IsSint val.invokeid × IsOctets val.command

abbrev pub IsOutput : OutputType → Type 0
IsOutput val = IsSint val.invokeid × IsOctets val.command × IsOctets val.result

input_type_valid : (val : InputType) → IsInput val → input_type_is_constraint_valid val ≡ (true, 0)
unfolding input_type_is_constraint_valid
input_type_valid val valid = size_valid_lem 1003 val.command valid.1

output_type_valid :
    (val : OutputType) → IsOutput val → output_type_is_constraint_valid val ≡ (true, 0)
unfolding output_type_is_constraint_valid
output_type_valid val valid =
    rw (le→leb 1 (length val.command) valid.1.0, le→leb (length val.command) 256 valid.1.1)
      (size_valid_lem 1001 val.result valid.2)

attached-Holds : Holds (attached (replicate buffer_ksize 0)) [] buffer_ksize
unfolding attached
attached-Holds = record {
  aligned = refl;
  inside = omega (arith, length-replicate {A = ℕ} buffer_ksize 0);
  written = refl;
  free = refl;
}

Holds-eq :
    {strm : BitStream} {w w' : List ℕ} {n n' : ℕ}
    → w ≡ w'
    → n ≡ n'
    → Holds strm w n
    → Holds strm w' n'
Holds-eq e f i = rw (← e, ← f) i

module _ (rt : BitCoding) (h : IsCoding rt) where
  append_bytes-Holds :
      (bytes : List ℕ) (strm : BitStream) (w : List ℕ) (room : ℕ)
      → Holds strm w room
      → All IsByte bytes
      → length bytes ≤ room
      → Holds (append_bytes rt bytes strm) (w ++ bytes) (room - length bytes)
  unfolding append_bytes
  append_bytes-Holds [] strm w room i all fits = Holds-eq (sym (append-nil w)) (omega arith) i
  append_bytes-Holds (b ∷ bytes) strm w room i all fits =
      let next =
        append_bytes-Holds bytes (rt.append_byte0 strm b) (w ++ b ∷ []) (room - 1)
          (h.append_byte0_writes strm w room b i all.0 (omega arith)) all.1 (omega arith) in
      Holds-eq (append_assoc w (b ∷ []) bytes) (omega arith) next

  encode_octets-Holds :
      (val : List ℕ) (strm : BitStream) (w : List ℕ) (room : ℕ)
      → Holds strm w room
      → IsOctets val
      → length val + 1 ≤ room
      → Holds
          (append_bytes rt val
            (rt.encode_constraint_whole_number strm (pos (length val)) (pos 1) (pos 256)))
          (w ++ octets_bytes val)
          (room - (length val + 1))
  encode_octets-Holds val strm w room i valid fits =
      let sized =
        h.encode_constraint_writes strm w room (length val) i valid.0 valid.1 (omega arith) in
      let all = append_bytes-Holds val _ _ (room - 1) sized valid.2 (omega arith) in
      Holds-eq (append_assoc w ((length val - 1) ∷ []) val) (omega arith) all

  -- The bytes of a message.
  abbrev pub input_bytes : InputType → List ℕ
  input_bytes val = h.integer_bytes val.invokeid ++ octets_bytes val.command

  abbrev pub output_bytes : OutputType → List ℕ
  output_bytes val =
      h.integer_bytes val.invokeid ++ octets_bytes val.command ++ octets_bytes val.result

  encoded-Holds :
      (strm : BitStream) (w : List ℕ) (n : ℕ) → Holds strm w n → encoded (true, 0, strm) ≡ (0, w)
  unfolding encoded
  encoded-Holds strm w n i = rw i.written refl

  pub input_type_encode_lem :
      (val : InputType)
      → IsInput val
      → encoded (input_type_encode rt val (attached (replicate buffer_ksize 0)) 0 true)
        ≡ (0, input_bytes val)
  unfolding input_type_encode
  input_type_encode_lem val valid =
      let small = h.length-integer_bytes val.invokeid valid.0 in
      let one =
        h.encode_unconstraint_writes _ [] buffer_ksize val.invokeid attached-Holds valid.0
          (omega arith) in
      let two = encode_octets-Holds val.command _ _ _ one valid.1 (omega arith) in
      rw (le→leb 1 (length val.command) valid.1.0, le→leb (length val.command) 256 valid.1.1)
        (encoded-Holds _ _ _ two)

  pub output_type_encode_lem :
      (val : OutputType)
      → IsOutput val
      → encoded (output_type_encode rt val (attached (replicate buffer_ksize 0)) 0 true)
        ≡ (0, output_bytes val)
  unfolding output_type_encode
  output_type_encode_lem val valid =
      let small = h.length-integer_bytes val.invokeid valid.0 in
      let one =
        h.encode_unconstraint_writes _ [] buffer_ksize val.invokeid attached-Holds valid.0
          (omega arith) in
      let two = encode_octets-Holds val.command _ _ _ one valid.1 (omega arith) in
      let three = encode_octets-Holds val.result _ _ _ two valid.2 (omega arith) in
      rw (output_type_valid val valid) (encoded-Holds _ _ _ three)
