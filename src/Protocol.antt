-- ===== src/Protocol.antt =====
-- muxer/protocol.c: a client's request is forwarded under a generated invoke id, and the answer to
-- it goes back under the original one.
pub mod InvokeId
pub mod Request
pub mod Reply
pub mod RoundTrip
use muxer.Base.{
  ℕ, ◌+◌, ◌-◌, ◌%◌, Bool, true, false, List, [], ◌∷◌, ◌++◌, ◌==◌, if◌then◌else◌, length, Outcome,
  ok, ◌>>=◌, ◌>>◌, to_uint, to_sint, replicate,
}
use muxer.Pdu.{Pdu, buffer_ksize}
use muxer.State.{State, InputType, OutputType, Mapping, InMessage, OutMessage}
use muxer.Message.{alloc_in_message, alloc_out_message}
use muxer.Mapping.{alloc_socket_invokeid_mapping}

-- The generated encoders and decoders of the messages, with their `pErrCode`. An encoder gives the
-- bytes up to `currentByte`; a decoder what it leaves in the message, also after an error.
pub record Codec : Type 0 where
  pub encode_input : InputType → ℕ × List ℕ
  pub decode_input : List ℕ → ℕ × InputType
  pub encode_output : OutputType → ℕ × List ℕ
  pub decode_output : List ℕ → ℕ × OutputType

-- The zeroed buffer of BUFFER_KSIZE bytes with the PDU copied to its front.
unfoldable pub decode_buf : Pdu → List ℕ
decode_buf pdu = pdu ++ replicate (buffer_ksize - length pdu) 0

abbrev pub max_invokeid : ℕ
max_invokeid = 32767

unfoldable pub next_invokeid : ℕ → ℕ
next_invokeid counter = counter % max_invokeid + 1

unfoldable pub generate_invokeid : State → State
unfolding next_invokeid
generate_invokeid s = record s { invokeid_gen_counter = next_invokeid s.invokeid_gen_counter }

unfoldable pub put_into_socket_to_recv_unicast_msg : ℕ → ℕ → State → Outcome State
unfolding generate_invokeid alloc_socket_invokeid_mapping
put_into_socket_to_recv_unicast_msg socket invokeid s = do
  let s' = generate_invokeid s
  new_mapping ← alloc_socket_invokeid_mapping socket invokeid s'.invokeid_gen_counter
  ok (record s' { socket_to_recv_unicast_msg = s'.socket_to_recv_unicast_msg ++ new_mapping ∷ [] })

-- The copy has the same bytes.
unfoldable pub copy_in_message : InMessage → Outcome InMessage
unfolding alloc_in_message
copy_in_message from = alloc_in_message from.socket from.pdu

unfoldable pub copy_out_message : OutMessage → Outcome OutMessage
unfolding alloc_out_message
copy_out_message from = alloc_out_message from.pdu

unfoldable pub put_pdu_into_w_in_messages : ℕ → Pdu → State → Outcome State
unfolding alloc_in_message
put_pdu_into_w_in_messages socket pdu s = do
  new_in_message ← alloc_in_message socket pdu
  ok (record s { w_in_messages = s.w_in_messages ++ new_in_message ∷ []; event_new_message = true })

unfoldable pub put_pdu_into_w_out_messages : Pdu → State → Outcome State
unfolding alloc_out_message
put_pdu_into_w_out_messages pdu s = do
  new_out_message ← alloc_out_message pdu
  ok (record s {
    w_out_messages = s.w_out_messages ++ new_out_message ∷ [];
    event_new_message = true;
  })

module _ (codec : Codec) where
  -- `encode_in_pdu` and `encode_out_pdu`: after an error the PDU keeps its length 0.
  unfoldable pub encode_in_pdu : InputType → ℕ × Pdu
  encode_in_pdu pdu_to_encode =
      let (encode_err, buf) = codec.encode_input pdu_to_encode in
      (encode_err, if encode_err == 0 then buf else [])

  unfoldable pub encode_out_pdu : OutputType → ℕ × Pdu
  encode_out_pdu pdu_to_encode =
      let (encode_err, buf) = codec.encode_output pdu_to_encode in
      (encode_err, if encode_err == 0 then buf else [])

  unfoldable pub decode_in_pdu : Pdu → ℕ × InputType
  unfolding decode_buf
  decode_in_pdu pdu_to_decode = codec.decode_input (decode_buf pdu_to_decode)

  unfoldable pub decode_out_pdu : Pdu → ℕ × OutputType
  unfolding decode_buf
  decode_out_pdu pdu_to_decode = codec.decode_output (decode_buf pdu_to_decode)

  -- What is done with a message taken from `r_in_messages`. The decoder's error is not looked at.
  unfoldable pub process_request : InMessage → State → Outcome State
  unfolding encode_in_pdu decode_in_pdu put_into_socket_to_recv_unicast_msg
      put_pdu_into_w_out_messages
  process_request r s = do
    let decoded_in_pdu = (decode_in_pdu r.pdu).1
    let invokeid_original = to_uint decoded_in_pdu.invokeid
    s' ← put_into_socket_to_recv_unicast_msg r.socket invokeid_original s
    let (err_res, reencoded_pdu) =
        encode_in_pdu (record decoded_in_pdu { invokeid = to_sint s'.invokeid_gen_counter })
    if err_res == 0 then put_pdu_into_w_out_messages reencoded_pdu s' else ok s'

  unfoldable pub take_request : List InMessage → State → Outcome State
  unfolding copy_in_message process_request
  take_request [] s = ok s
  take_request (tmp ∷ rest) s = do
    r ← copy_in_message tmp
    process_request r (record s { r_in_messages = rest })

  unfoldable pub process_incoming_in_messages : State → Outcome State
  unfolding take_request
  process_incoming_in_messages s = take_request s.r_in_messages s

  -- The loop over the mappings: the entries that stay, and the state with the answers put.
  unfoldable pub route_reply :
      OutputType → ℕ → List Mapping → State → Outcome (List Mapping × State)
  unfolding encode_out_pdu put_pdu_into_w_in_messages
  route_reply decoded_out_pdu invokeid_generated [] s = ok ([], s)
  route_reply decoded_out_pdu invokeid_generated (m ∷ rest) s =
      elim (m.invokeid_generated == invokeid_generated) [
        | true ↦ do
          let (_, reencoded_pdu) =
              encode_out_pdu (record decoded_out_pdu { invokeid = to_sint m.invokeid_original })
          s' ← put_pdu_into_w_in_messages m.socket reencoded_pdu s
          route_reply decoded_out_pdu invokeid_generated rest s'
        | false ↦ do
          (left, s') ← route_reply decoded_out_pdu invokeid_generated rest s
          ok (m ∷ left, s')
      ]

  unfoldable pub process_reply : OutMessage → State → Outcome State
  unfolding decode_out_pdu route_reply
  process_reply p s = do
    let decoded_out_pdu = (decode_out_pdu p.pdu).1
    let invokeid_generated = to_uint decoded_out_pdu.invokeid
    (left, s') ← route_reply decoded_out_pdu invokeid_generated s.socket_to_recv_unicast_msg s
    ok (record s' { socket_to_recv_unicast_msg = left })

  unfoldable pub take_reply : List OutMessage → State → Outcome State
  unfolding copy_out_message process_reply
  take_reply [] s = ok s
  take_reply (tmp ∷ rest) s = do
    p ← copy_out_message tmp
    process_reply p (record s { r_out_messages = rest })

  unfoldable pub process_incoming_out_messages : State → Outcome State
  unfolding take_reply
  process_incoming_out_messages s = take_reply s.r_out_messages s
