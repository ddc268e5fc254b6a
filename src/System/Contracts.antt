-- ===== src/System/Contracts.antt =====
-- The messages of messages/messages.asn1 are requests and answers that the muxer can send on.
use muxer.Base.{ℕ, ◌≤◌, to_sint-IsSint, ◌≡◌, arith, to_sint}
use muxer.State.{InputType, OutputType}
use muxer.Pdu.{Pdu}
use muxer.Protocol.{
  Codec, max_invokeid, encode_in_pdu, decode_in_pdu, encode_out_pdu, decode_out_pdu,
}
use muxer.Messages.{BitCoding}
use muxer.Messages.Runtime.{IsCoding}
use muxer.Messages.Encoding.{IsInput, IsOutput}
use muxer.Messages.RoundTrip.{codec, encode_in_pdu-decode_in_pdu, encode_out_pdu-decode_out_pdu}
use muxer.System.{IsRequest, IsAnswer, IsSendable}

-- A request that is encoded without error and can be sent, under every generated id.
abbrev pub IsAccepted : Codec → Pdu → Type 0
IsAccepted codec p =
    (id : ℕ)
    → id ≤ max_invokeid
    → let (err, pdu) =
        encode_in_pdu codec (record (decode_in_pdu codec p).1 { invokeid = to_sint id }) in
      (err ≡ 0) × IsSendable pdu

module _ (rt : BitCoding) (h : IsCoding rt) (input : InputType) (output : OutputType) where
  -- The encoding of a request that messages.asn1 allows, decoded and encoded again under any
  -- generated id up to 32767, is encoded without error, has from 2 to 1022 bytes and fits a send
  -- buffer with its header. The run-time has the laws of `IsCoding`.
  pub encode_in_pdu-IsAccepted :
      (x : InputType)
      → IsInput x
      → IsAccepted (codec rt input output) (encode_in_pdu (codec rt input output) x).1
  encode_in_pdu-IsAccepted x valid id small =
      let c = codec rt input output in
      let (_, _, _, _, back) = encode_in_pdu-decode_in_pdu rt h input output x valid in
      let told : (decode_in_pdu c (encode_in_pdu c x).1).1 ≡ x = λ i. (back i).1 in
      let sent : InputType = record x { invokeid = to_sint id } in
      let (fine, low, high, _, _) =
        encode_in_pdu-decode_in_pdu rt h input output sent
          (to_sint-IsSint id (omega arith), valid.1) in
      rw told (fine, (omega arith, omega arith))

  -- Such a request is one that `Allowed` lets a client send.
  encode_in_pdu-IsRequest :
      (x : InputType)
      → IsInput x
      → IsRequest (codec rt input output) (encode_in_pdu (codec rt input output) x).1
  encode_in_pdu-IsRequest x valid id small err = (encode_in_pdu-IsAccepted x valid id small).1

  -- The encoding of an answer that messages.asn1 allows, decoded and encoded again under any 64-bit
  -- id, has from 2 to 1022 bytes and fits a send buffer with its header. The run-time has the laws
  -- of `IsCoding`.
  pub encode_out_pdu-IsAnswer :
      (y : OutputType)
      → IsOutput y
      → IsAnswer (codec rt input output) (encode_out_pdu (codec rt input output) y).1
  encode_out_pdu-IsAnswer y valid id small =
      let c = codec rt input output in
      let (_, _, _, _, back) = encode_out_pdu-decode_out_pdu rt h input output y valid in
      let told : (decode_out_pdu c (encode_out_pdu c y).1).1 ≡ y = λ i. (back i).1 in
      let sent : OutputType = record y { invokeid = to_sint id } in
      let (_, low, high, _, _) =
        encode_out_pdu-decode_out_pdu rt h input output sent
          (to_sint-IsSint id small, valid.1, valid.2) in
      rw told (omega arith, omega arith)
