-- ===== src/Peers/Through.antt =====
-- A request of test_client/client.c on its way through muxer/protocol.c to test_server/server.c, and
-- the answer on its way back.
use muxer.Base.{ℕ, ◌≡◌, true, List, [], ◌∷◌, ◌++◌, ok, pos, to_sint, ℤ}
use muxer.Pdu.{Pdu}
use muxer.Pdu.Framing.{frame}
use muxer.State.{State, InputType, OutputType, InMessage, OutMessage}
use muxer.Protocol.{
  encode_in_pdu, encode_out_pdu, process_incoming_in_messages, process_incoming_out_messages,
  next_invokeid,
}
use muxer.Messages.{BitCoding}
use muxer.Messages.RoundTrip.{codec}
use muxer.Messages.Forwarding.{request_pdu, reply_pdu}
use muxer.Dispatcher.Buffers.{received}
use muxer.Peers.{
  coded, sent, printed, goes_on, test_request, test_response, test_result, serve_round,
  client_round,
}

-- The client's request under an invoke id, and the server's answer.
abbrev pub request_message : ℤ → InputType
request_message id = record { invokeid = id; command = test_request }

abbrev pub answer_message : ℤ → OutputType
answer_message id = record { invokeid = id; command = test_response; result = test_result }

module _ (rt : BitCoding) (input : InputType) (output : OutputType) where
  -- The client's PDU, and the server's.
  abbrev pub asked_pdu : ℤ → Pdu
  asked_pdu id = (encode_in_pdu (codec rt input output) (request_message id)).1

  abbrev pub answered_pdu : ℤ → Pdu
  answered_pdu id = (encode_out_pdu (codec rt input output) (answer_message id)).1

  -- The request and the answer have gone through the muxer, and the programs have dealt with them.
  abbrev pub Carried : State → ℕ → ℕ → List InMessage → List OutMessage → Type 0
  Carried s socket id rest left =
      let codec' = codec rt input output in
      let generated = to_sint (next_invokeid s.invokeid_gen_counter) in
      let request = request_pdu rt input output s (request_message (pos id)) in
      let reply = reply_pdu rt input output (request_message (pos id)) (answer_message generated) in
      (s1 s2 : State) × (process_incoming_in_messages codec' s ≡ ok s1)
      × (s1.w_out_messages ≡ s.w_out_messages ++ record { pdu = request } ∷ [])
      × (serve_round codec' (λ k. true) (received (frame request))
          ≡ ok (
            coded 0
                ∷ printed generated test_request
                ∷ coded 0
                ∷ sent (frame (answered_pdu generated))
                ∷ [],
            goes_on,
          ))
      × (process_incoming_out_messages codec'
            (record s1 { r_out_messages = record { pdu = answered_pdu generated } ∷ left })
          ≡ ok s2)
      × (s2.w_in_messages ≡ s.w_in_messages ++ record { socket = socket; pdu = reply } ∷ [])
      × (client_round codec' id true (received (frame reply))
          ≡ ok (
            coded 0
                ∷ sent (frame (asked_pdu (pos id)))
                ∷ coded 0
                ∷ printed (pos id) test_response
                ∷ [],
            goes_on,
          ))
      × (s2.socket_to_recv_unicast_msg ≡ s.socket_to_recv_unicast_msg)
