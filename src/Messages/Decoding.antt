-- ===== src/Messages/Decoding.antt =====
-- What the decoders of messages/messages.c read.
use muxer.Base.{
  ◌≤◌, ℕ, ◌+◌, ◌-◌, ◌≡◌, refl, arith, Bool, true, List, [], ◌∷◌, ◌++◌, append_assoc, length, drop,
  ◌∙◌,
}
use muxer.Pdu.{buffer_ksize}
use muxer.State.{InputType, OutputType}
use muxer.Messages.{
  BitStream, BitCoding, attached, read_bytes, decode_octets, input_type_decode, output_type_decode,
}
use muxer.Messages.Runtime.{Before, Gives, IsCoding}
use muxer.Messages.Encoding.{IsOctets, IsInput, IsOutput, octets_bytes, input_bytes, output_bytes}

-- The decoder succeeds with this value, and these bytes are left.
abbrev pub Decodes {ℓ} : {A : Type ℓ} → Bool × ℕ × A × BitStream → A → List ℕ → Type ℓ
Decodes (ret, err, v, strm) value rest = (ret ≡ true) × (err ≡ 0) × (v ≡ value) × Before strm rest

attached-Before : (bytes : List ℕ) → length bytes ≤ buffer_ksize → Before (attached bytes) bytes
unfolding attached
attached-Before bytes h = record { aligned = refl; inside = h; left = refl }

Before-eq : {strm : BitStream} {w w' : List ℕ} → w ≡ w' → Before strm w → Before strm w'
Before-eq e i = rw (← e) i

split : (a b c d : List ℕ) → ((a ++ b) ++ c) ++ d ≡ a ++ (b ++ (c ++ d))
split a b c d = append_assoc (a ++ b) c d ∙ append_assoc a b (c ++ d)

module _ (rt : BitCoding) (h : IsCoding rt) where
  read_bytes-Gives :
      (bytes arr rest : List ℕ) (strm : BitStream)
      → Before strm (bytes ++ rest)
      → Gives (read_bytes rt (length bytes) arr strm) bytes rest
  unfolding read_bytes
  read_bytes-Gives [] arr rest strm i = (refl, refl, i)
  read_bytes-Gives (b ∷ bytes) arr rest strm i =
      let (ret, value, next) = h.read_byte_reads strm b (bytes ++ rest) i in
      let (ret', bytes', next') =
        read_bytes-Gives bytes (drop 1 arr) rest (rt.read_byte strm).2 next in
      rw (ret, value) (ret', rw bytes' refl, next')

  decode_octets-Decodes :
      (val arr rest : List ℕ) (strm : BitStream)
      → IsOctets val
      → Before strm (octets_bytes val ++ rest)
      → Decodes (decode_octets rt arr strm) val rest
  unfolding decode_octets
  decode_octets-Decodes val arr rest strm valid i =
      let (ret, size, next) =
        h.decode_constraint_reads strm (length val - 1) (val ++ rest) i (omega arith) in
      let e : length val - 1 + 1 ≡ length val = omega arith in
      let (ret', bytes, next') = read_bytes-Gives val arr rest _ next in
      rw (ret, size, e) (ret', rw ret' refl, bytes, next')

  pub input_type_decode-Decodes :
      (val old : InputType) (rest : List ℕ)
      → IsInput val
      → length (input_bytes rt h val ++ rest) ≤ buffer_ksize
      → Decodes (input_type_decode rt old (attached (input_bytes rt h val ++ rest))) val rest
  unfolding input_type_decode
  input_type_decode-Decodes val old rest valid room =
      let start = attached-Before (input_bytes rt h val ++ rest) room in
      let (ret, id, next) =
        h.decode_unconstraint_reads _ val.invokeid (octets_bytes val.command ++ rest)
          (Before-eq (append_assoc (h.integer_bytes val.invokeid) (octets_bytes val.command) rest)
            start)
          valid.0 in
      let (ret', err, command, next') =
        decode_octets-Decodes val.command old.command rest _ valid.1 next in
      rw ret (ret', err, λ i. record { invokeid = id i; command = command i }, next')

  pub output_type_decode-Decodes :
      (val old : OutputType) (rest : List ℕ)
      → IsOutput val
      → length (output_bytes rt h val ++ rest) ≤ buffer_ksize
      → Decodes (output_type_decode rt old (attached (output_bytes rt h val ++ rest))) val rest
  unfolding output_type_decode
  output_type_decode-Decodes val old rest valid room =
      let start = attached-Before (output_bytes rt h val ++ rest) room in
      let (ret, id, next) =
        h.decode_unconstraint_reads _ val.invokeid
          (octets_bytes val.command ++ (octets_bytes val.result ++ rest))
          (Before-eq
            (split (h.integer_bytes val.invokeid) (octets_bytes val.command)
              (octets_bytes val.result) rest)
            start)
          valid.0 in
      let (ret', err, command, next') =
        decode_octets-Decodes val.command old.command (octets_bytes val.result ++ rest) _ valid.1
          next in
      let (ret'', err', result, next'') =
        decode_octets-Decodes val.result old.result rest _ valid.2 next' in
      rw (ret, ret')
        (
          ret'',
          err',
          λ i. record { invokeid = id i; command = command i; result = result i },
          next'',
        )
