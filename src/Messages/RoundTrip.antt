-- ===== src/Messages/RoundTrip.antt =====
-- Encoding a message into a PDU and decoding it.
use muxer.Base.{
  length-replicate, ℕ, ◌+◌, ◌-◌, ◌≤◌, ◌<◌, ◌≡◌, refl, arith, List, [], ◌++◌, ap, length,
  length-append, replicate, All, All-append, ◌⊎◌, inl, inr, lt→leb, le→leb, if◌then◌else◌, ◌==◌,
  All-append,
}
use muxer.Pdu.{Pdu, buffer_ksize}
use muxer.Pdu.Reading.{IsByte}
use muxer.State.{InputType, OutputType}
use muxer.Protocol.{Codec, encode_in_pdu, decode_in_pdu, encode_out_pdu, decode_out_pdu, decode_buf}
use muxer.Messages.{BitCoding, messages_codec, input_type_encode}
use muxer.Messages.Runtime.{IsCoding}
use muxer.Messages.Encoding.{
  IsOctets, IsInput, IsOutput, input_bytes, output_bytes, octets_bytes, input_type_encode_lem,
  output_type_encode_lem,
}
use muxer.Messages.Decoding.{input_type_decode-Decodes, output_type_decode-Decodes}

octets_bytes-IsByte : (val : List ℕ) → IsOctets val → All IsByte (octets_bytes val)
octets_bytes-IsByte val valid = (omega arith, valid.2)

-- What ENCODE_PDU makes of the error code and the bytes.
abbrev sent_pdu : ℕ × List ℕ → ℕ × Pdu
sent_pdu (err, buf) = (err, if err == 0 then buf else [])

padded :
    (bytes : List ℕ)
    → length bytes ≤ buffer_ksize
    → length (bytes ++ replicate (buffer_ksize - length bytes) 0) ≤ buffer_ksize
padded bytes h =
    let zeros = length-replicate {A = ℕ} (buffer_ksize - length bytes) 0 in
    let sum = length-append bytes (replicate (buffer_ksize - length bytes) 0) in omega arith

module _ (rt : BitCoding) (input : InputType) (output : OutputType) where
  abbrev pub codec : Codec
  unfolding messages_codec
  codec = messages_codec rt input output

module _ (rt : BitCoding) (h : IsCoding rt) (input : InputType) (output : OutputType) where
  pub encode_in_pdu_lem :
      (val : InputType)
      → IsInput val
      → encode_in_pdu (codec rt input output) val ≡ (0, input_bytes rt h val)
  unfolding encode_in_pdu messages_codec
  encode_in_pdu_lem val valid = ap sent_pdu (input_type_encode_lem rt h val valid)

  encode_out_pdu_lem :
      (val : OutputType)
      → IsOutput val
      → encode_out_pdu (codec rt input output) val ≡ (0, output_bytes rt h val)
  unfolding encode_out_pdu messages_codec
  encode_out_pdu_lem val valid = ap sent_pdu (output_type_encode_lem rt h val valid)

  decode_in_pdu_lem :
      (val : InputType)
      → IsInput val
      → decode_in_pdu (codec rt input output) (input_bytes rt h val) ≡ (0, val)
  unfolding decode_in_pdu decode_buf messages_codec
  decode_in_pdu_lem val valid =
      let size = h.length-integer_bytes val.invokeid valid.0 in
      let sum = length-append (h.integer_bytes val.invokeid) (octets_bytes val.command) in
      let (_, err, value, _) =
        input_type_decode-Decodes rt h val input
          (replicate (buffer_ksize - length (input_bytes rt h val)) 0) valid
          (padded (input_bytes rt h val) (omega arith)) in
      λ i. (err i, value i)

  decode_out_pdu_lem :
      (val : OutputType)
      → IsOutput val
      → decode_out_pdu (codec rt input output) (output_bytes rt h val) ≡ (0, val)
  unfolding decode_out_pdu decode_buf messages_codec
  decode_out_pdu_lem val valid =
      let size = h.length-integer_bytes val.invokeid valid.0 in
      let front = h.integer_bytes val.invokeid ++ octets_bytes val.command in
      let one = length-append (h.integer_bytes val.invokeid) (octets_bytes val.command) in
      let two = length-append front (octets_bytes val.result) in
      let (_, err, value, _) =
        output_type_decode-Decodes rt h val output
          (replicate (buffer_ksize - length (output_bytes rt h val)) 0) valid
          (padded (output_bytes rt h val) (omega arith)) in
      λ i. (err i, value i)

  -- If the run-time has the laws of `IsCoding`, every request that messages.asn1 allows is encoded
  -- without error into a PDU of 4 to 266 bytes, which decodes without error to the same request.
  pub encode_in_pdu-decode_in_pdu :
      (val : InputType)
      → IsInput val
      → let (err, pdu) = encode_in_pdu (codec rt input output) val in
        (err ≡ 0)
        × (4 ≤ length pdu)
        × (length pdu ≤ 266)
        × All IsByte pdu
        × (decode_in_pdu (codec rt input output) pdu ≡ (0, val))
  encode_in_pdu-decode_in_pdu val valid =
      let size = h.length-integer_bytes val.invokeid valid.0 in
      let sum = length-append (h.integer_bytes val.invokeid) (octets_bytes val.command) in
      rw (encode_in_pdu_lem val valid) (
        refl,
        omega arith,
        omega arith,
        All-append IsByte (h.integer_bytes val.invokeid) (octets_bytes val.command)
            (h.integer_bytes-IsByte val.invokeid valid.0) (octets_bytes-IsByte val.command valid.1),
        decode_in_pdu_lem val valid,
      )

  -- If the run-time has the laws of `IsCoding`, every answer that messages.asn1 allows is encoded
  -- without error into a PDU of 6 to 523 bytes, which decodes without error to the same answer.
  pub encode_out_pdu-decode_out_pdu :
      (val : OutputType)
      → IsOutput val
      → let (err, pdu) = encode_out_pdu (codec rt input output) val in
        (err ≡ 0)
        × (6 ≤ length pdu)
        × (length pdu ≤ 523)
        × All IsByte pdu
        × (decode_out_pdu (codec rt input output) pdu ≡ (0, val))
  encode_out_pdu-decode_out_pdu val valid =
      let size = h.length-integer_bytes val.invokeid valid.0 in
      let front = h.integer_bytes val.invokeid ++ octets_bytes val.command in
      let one = length-append (h.integer_bytes val.invokeid) (octets_bytes val.command) in
      let two = length-append front (octets_bytes val.result) in
      rw (encode_out_pdu_lem val valid) (
        refl,
        omega arith,
        omega arith,
        All-append IsByte front (octets_bytes val.result)
            (All-append IsByte (h.integer_bytes val.invokeid) (octets_bytes val.command)
              (h.integer_bytes-IsByte val.invokeid valid.0)
              (octets_bytes-IsByte val.command valid.1))
            (octets_bytes-IsByte val.result valid.2),
        decode_out_pdu_lem val valid,
      )

  pub encode_in_pdu-length :
      (val : InputType)
      → IsInput val
      → let (err, pdu) = encode_in_pdu (codec rt input output) val in
        (err ≡ 0) × (2 ≤ length pdu) × (length pdu ≤ length val.command + 10)
  encode_in_pdu-length val valid =
      let size = h.length-integer_bytes val.invokeid valid.0 in
      let sum = length-append (h.integer_bytes val.invokeid) (octets_bytes val.command) in
      rw (encode_in_pdu_lem val valid) (refl, omega arith, omega arith)

  pub encode_out_pdu-length :
      (val : OutputType)
      → IsOutput val
      → let (err, pdu) = encode_out_pdu (codec rt input output) val in
        (err ≡ 0) × (2 ≤ length pdu) × (length pdu ≤ length val.command + length val.result + 11)
  encode_out_pdu-length val valid =
      let size = h.length-integer_bytes val.invokeid valid.0 in
      let front = h.integer_bytes val.invokeid ++ octets_bytes val.command in
      let one = length-append (h.integer_bytes val.invokeid) (octets_bytes val.command) in
      let two = length-append front (octets_bytes val.result) in
      rw (encode_out_pdu_lem val valid) (refl, omega arith, omega arith)

  -- A request whose command has no byte or more than 256 is refused by the encoder with error 1003,
  -- and the PDU stays empty. The run-time has the laws of `IsCoding`.
  pub encode_in_pdu_rejects :
      (val : InputType)
      → (length val.command ≡ 0) ⊎ (256 < length val.command)
      → encode_in_pdu (codec rt input output) val ≡ (1003, [])
  unfolding encode_in_pdu input_type_encode messages_codec
  encode_in_pdu_rejects val (inl none) = rw (lt→leb 1 (length val.command) (omega arith))
  encode_in_pdu_rejects val (inr many) =
      rw (le→leb 1 (length val.command) (omega arith), lt→leb (length val.command) 256 many)

  pub decode-encode_in :
      (val : InputType)
      → IsInput val
      → (decode_in_pdu (codec rt input output) (encode_in_pdu (codec rt input output) val).1)
        ≡ (0, val)
  decode-encode_in val valid = rw (encode_in_pdu_lem val valid) (decode_in_pdu_lem val valid)

  pub decode-encode_out :
      (val : OutputType)
      → IsOutput val
      → (decode_out_pdu (codec rt input output) (encode_out_pdu (codec rt input output) val).1)
        ≡ (0, val)
  decode-encode_out val valid = rw (encode_out_pdu_lem val valid) (decode_out_pdu_lem val valid)
