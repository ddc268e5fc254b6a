-- ===== src/Tests/Messages.antt =====
-- messages/messages.c over a small run-time, and a client's request and its answer over it.
use muxer.Base.{◌≡◌, refl, arith, inl, [], ◌∷◌, pos, to_sint}
use muxer.State.{InputType, OutputType, State, initial_state}
use muxer.Protocol.{next_invokeid, encode_in_pdu, decode_in_pdu, encode_out_pdu, decode_out_pdu}
use muxer.Messages.Encoding.{IsInput, IsOutput}
use muxer.Messages.RoundTrip.{
  codec, encode_in_pdu-decode_in_pdu, encode_out_pdu-decode_out_pdu, encode_in_pdu_rejects,
}
use muxer.Messages.Forwarding.{Forwarded, request_reply_messages}
use muxer.System.{IsAnswer}
use muxer.System.Contracts.{IsAccepted, encode_in_pdu-IsAccepted, encode_out_pdu-IsAnswer}
use muxer.Tests.Runtime.{runtime, runtime-IsCoding}

abbrev old_input : InputType
old_input = record { invokeid = pos 0; command = [] }

abbrev old_output : OutputType
old_output = record { invokeid = pos 0; command = []; result = [] }

-- Command 65 66 under invoke id 7.
abbrev asked : InputType
asked = record { invokeid = pos 7; command = 65 ∷ 66 ∷ [] }

asked-IsInput : IsInput asked
asked-IsInput = ground arith

-- The server's answer, under the generated id 1.
abbrev answered : OutputType
answered = record { invokeid = pos 1; command = 65 ∷ 66 ∷ []; result = 67 ∷ [] }

answered-IsOutput : IsOutput answered
answered-IsOutput = ground arith

abbrev asking : State
unfolding encode_in_pdu
asking = record initial_state {
  r_in_messages =
      record { socket = 5; pdu = (encode_in_pdu (codec runtime old_input old_output) asked).1 }
      ∷ [];
}

encode_in_pdu-decode_in_pdu_example :
    let c = codec runtime old_input old_output in
    decode_in_pdu c (encode_in_pdu c asked).1 ≡ (0, asked)
encode_in_pdu-decode_in_pdu_example =
    (encode_in_pdu-decode_in_pdu runtime runtime-IsCoding old_input old_output asked
      asked-IsInput).4

encode_out_pdu-decode_out_pdu_example :
    let c = codec runtime old_input old_output in
    decode_out_pdu c (encode_out_pdu c answered).1 ≡ (0, answered)
encode_out_pdu-decode_out_pdu_example =
    (encode_out_pdu-decode_out_pdu runtime runtime-IsCoding old_input old_output answered
      answered-IsOutput).4

encode_in_pdu_rejects_example :
    encode_in_pdu (codec runtime old_input old_output) old_input ≡ (1003, [])
encode_in_pdu_rejects_example =
    encode_in_pdu_rejects runtime runtime-IsCoding old_input old_output old_input (inl refl)

request_reply_messages_example :
    Forwarded runtime old_input old_output asking 5 asked answered [] []
unfolding next_invokeid to_sint asking
request_reply_messages_example =
    request_reply_messages runtime runtime-IsCoding old_input old_output asking 5 asked answered []
      [] asked-IsInput answered-IsOutput refl (omega arith) tt tt refl

encode_in_pdu-IsAccepted_example :
    let c = codec runtime old_input old_output in IsAccepted c (encode_in_pdu c asked).1
encode_in_pdu-IsAccepted_example =
    encode_in_pdu-IsAccepted runtime runtime-IsCoding old_input old_output asked asked-IsInput

encode_out_pdu-IsAnswer_example :
    let c = codec runtime old_input old_output in IsAnswer c (encode_out_pdu c answered).1
encode_out_pdu-IsAnswer_example =
    encode_out_pdu-IsAnswer runtime runtime-IsCoding old_input old_output answered answered-IsOutput
