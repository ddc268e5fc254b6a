-- ===== src/Tests/Protocols.antt =====
-- muxer/protocol.c with a small codec: a byte for the invoke id and a byte for each text.
use muxer.Base.{
  ℕ, ◌≡◌, ◌≢◌, ◌≤◌, refl, List, [], ◌∷◌, ◌++◌, arith, ok, ℤ, pos, negsuc, to_sint, to_uint, true,
}
use muxer.State.{State, InputType, OutputType, InMessage, OutMessage, Mapping, initial_state}
use muxer.Protocol.{
  Codec, next_invokeid, decode_in_pdu, decode_out_pdu, encode_in_pdu, encode_out_pdu,
  process_incoming_in_messages, process_incoming_out_messages, process_reply,
}
use muxer.Protocol.InvokeId.{invokeid_after, invokeid_after_distinct}
use muxer.Protocol.Request.{process_incoming_in_messages_lem}
use muxer.Protocol.Reply.{process_reply_lem}
use muxer.Protocol.RoundTrip.{answered, process_request_reply, process_reply_delivers}

abbrev small : ℤ → ℕ
small (pos n) = n
small (negsuc n) = 0

abbrev decode_small_input : List ℕ → ℕ × InputType
decode_small_input (i ∷ c ∷ _) = (0, record { invokeid = pos i; command = c ∷ [] })
decode_small_input _ = (1, record { invokeid = pos 0; command = [] })

abbrev decode_small_output : List ℕ → ℕ × OutputType
decode_small_output (i ∷ c ∷ r ∷ _) =
    (0, record { invokeid = pos i; command = c ∷ []; result = r ∷ [] })
decode_small_output _ = (1, record { invokeid = pos 0; command = []; result = [] })

abbrev pub codec : Codec
codec = record {
  encode_input = λ x. (0, small x.invokeid ∷ x.command);
  decode_input = decode_small_input;
  encode_output = λ x. (0, small x.invokeid ∷ x.command ++ x.result);
  decode_output = decode_small_output;
}

-- The client on socket 5 sends command 65 under its invoke id 7.
abbrev sent : InMessage
sent = record { socket = 5; pdu = 7 ∷ 65 ∷ [] }

-- The server answers 66, under the id 1 that the muxer generated.
abbrev returned : OutMessage
returned = record { pdu = 1 ∷ 65 ∷ 66 ∷ [] }

abbrev asked : State
asked = record initial_state { r_in_messages = sent ∷ [] }

abbrev waiting : Mapping
waiting = record { socket = 5; invokeid_original = 7; invokeid_generated = 1 }

abbrev pending_state : State
pending_state = record initial_state { socket_to_recv_unicast_msg = waiting ∷ [] }

process_request_reply_example :
    process_incoming_out_messages codec (answered codec asked sent [] (returned ∷ []))
    ≡ ok (record (answered codec asked sent [] []) {
      socket_to_recv_unicast_msg = [];
      w_in_messages = record { socket = 5; pdu = 7 ∷ 65 ∷ 66 ∷ [] } ∷ [];
      event_new_message = true;
    })
unfolding decode_in_pdu decode_out_pdu encode_out_pdu next_invokeid to_sint
process_request_reply_example =
    (process_request_reply codec asked sent [] returned [] refl (omega arith) tt tt (omega arith)
      refl).1

process_reply_delivers_example :
    process_reply codec returned pending_state
    ≡ ok (record initial_state {
      w_in_messages = record { socket = 5; pdu = 7 ∷ 65 ∷ 66 ∷ [] } ∷ [];
      event_new_message = true;
    })
unfolding decode_out_pdu encode_out_pdu to_uint to_sint
process_reply_delivers_example =
    process_reply_delivers codec pending_state returned waiting [] [] refl refl tt tt (omega arith)

process_incoming_in_messages_lem_example :
    process_incoming_in_messages codec asked
    ≡ ok (record initial_state {
      socket_to_recv_unicast_msg = waiting ∷ [];
      w_out_messages = record { pdu = 1 ∷ 65 ∷ [] } ∷ [];
      invokeid_gen_counter = 1;
      event_new_message = true;
    })
unfolding decode_in_pdu encode_in_pdu next_invokeid to_sint to_uint
process_incoming_in_messages_lem_example =
    process_incoming_in_messages_lem codec asked sent [] refl (omega arith)

process_reply_lem_example :
    process_reply codec returned pending_state
    ≡ ok (record initial_state {
      w_in_messages = record { socket = 5; pdu = 7 ∷ 65 ∷ 66 ∷ [] } ∷ [];
      event_new_message = true;
    })
unfolding decode_out_pdu encode_out_pdu to_uint to_sint
process_reply_lem_example =
    process_reply_lem codec ((decode_small_output (1 ∷ 65 ∷ 66 ∷ [])).1) returned pending_state refl
      (omega arith)

invokeid_after_distinct_example :
    (1 ≤ invokeid_after 3 32766)
    × (invokeid_after 3 32766 ≤ 32767)
    × (invokeid_after 3 32766 ≢ invokeid_after 5 32766)
invokeid_after_distinct_example = invokeid_after_distinct 32766 2 4 (omega arith) (omega arith)
