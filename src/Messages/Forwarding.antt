-- ===== src/Messages/Forwarding.antt =====
-- What muxer/protocol.c does to the messages that the PDUs encode.
use muxer.Base.{
  ℕ, ◌<◌, ◌≡◌, refl, arith, List, [], ◌∷◌, ◌++◌, ◌∙◌, ap, All, ok, to_sint, if◌then◌else◌, ◌==◌,
  to_sint-IsSint,
}
use muxer.Pdu.{Pdu}
use muxer.State.{State, InputType, OutputType, InMessage, OutMessage}
use muxer.Protocol.{
  encode_in_pdu, decode_in_pdu, encode_out_pdu, decode_out_pdu, process_incoming_in_messages,
  process_incoming_out_messages, next_invokeid,
}
use muxer.Protocol.Reply.{HasSocket}
use muxer.Protocol.Request.{request}
use muxer.Protocol.RoundTrip.{next_invokeid-le, IsFresh, process_request_reply}
use muxer.Messages.{BitCoding}
use muxer.Messages.Runtime.{IsCoding}
use muxer.Messages.Encoding.{IsInput, IsOutput}
use muxer.Messages.RoundTrip.{codec, encode_in_pdu_lem, decode-encode_in, decode-encode_out}

module _ (rt : BitCoding) (input : InputType) (output : OutputType) where
  -- `x` has gone to the server under the generated id, and the answer `y` to the client under the
  -- id of `x`.
  abbrev pub Forwarded :
      State → ℕ → InputType → OutputType → List InMessage → List OutMessage → Type 0
  Forwarded s socket x y rest left =
      (s1 s2 : State) × (request reply : Pdu) × (process_incoming_in_messages
          (codec rt input output) s
        ≡ ok s1)
      × (s1.w_out_messages ≡ s.w_out_messages ++ record { pdu = request } ∷ [])
      × (decode_in_pdu (codec rt input output) request
          ≡ (0, record x { invokeid = to_sint (next_invokeid s.invokeid_gen_counter) }))
      × (process_incoming_out_messages (codec rt input output) (record s1 {
        r_out_messages = record { pdu = (encode_out_pdu (codec rt input output) y).1 } ∷ left;
      })
          ≡ ok s2)
      × (s2.w_in_messages ≡ s.w_in_messages ++ record { socket = socket; pdu = reply } ∷ [])
      × (decode_out_pdu (codec rt input output) reply ≡ (0, record y { invokeid = x.invokeid }))
      × (s2.socket_to_recv_unicast_msg ≡ s.socket_to_recv_unicast_msg)

module _ (rt : BitCoding) (input : InputType) (output : OutputType) where
  -- The PDU for the server: the client's request under the generated id.
  abbrev pub request_pdu : State → InputType → Pdu
  request_pdu s x =
      (encode_in_pdu (codec rt input output)
        (record x { invokeid = to_sint (next_invokeid s.invokeid_gen_counter) })).1

  -- The PDU for the client: the server's answer under the id of the request.
  abbrev pub reply_pdu : InputType → OutputType → Pdu
  reply_pdu x y = (encode_out_pdu (codec rt input output) (record y { invokeid = x.invokeid })).1

  -- The request has been queued for the server, and the answer for the client.
  abbrev pub Routed : State → ℕ → InputType → OutputType → List InMessage → List OutMessage → Type 0
  Routed s socket x y rest left =
      (s1 s2 : State) × (process_incoming_in_messages (codec rt input output) s ≡ ok s1)
      × (s1.w_out_messages ≡ s.w_out_messages ++ record { pdu = request_pdu s x } ∷ [])
      × (process_incoming_out_messages (codec rt input output) (record s1 {
        r_out_messages = record { pdu = (encode_out_pdu (codec rt input output) y).1 } ∷ left;
      })
          ≡ ok s2)
      × (s2.w_in_messages ≡ s.w_in_messages ++ record { socket = socket; pdu = reply_pdu x y } ∷ [])
      × (s2.socket_to_recv_unicast_msg ≡ s.socket_to_recv_unicast_msg)

module _ (rt : BitCoding) (h : IsCoding rt) (input : InputType) (output : OutputType) where
  pub request_reply-Routed :
      (s : State) (socket : ℕ) (x : InputType) (y : OutputType) (rest : List InMessage)
      (left : List OutMessage)
      → IsInput x
      → IsOutput y
      → s.r_in_messages
        ≡ record { socket = socket; pdu = (encode_in_pdu (codec rt input output) x).1 } ∷ rest
      → 0 < socket
      → All HasSocket s.socket_to_recv_unicast_msg
      → IsFresh (next_invokeid s.invokeid_gen_counter) s.socket_to_recv_unicast_msg
      → y.invokeid ≡ to_sint (next_invokeid s.invokeid_gen_counter)
      → Routed rt input output s socket x y rest left
  request_reply-Routed s socket x y rest left vx vy e sk sockets fresh is_id =
      let m : InMessage = record {
        socket = socket;
        pdu = (encode_in_pdu (codec rt input output) x).1;
      } in
      let p : OutMessage = record { pdu = (encode_out_pdu (codec rt input output) y).1 } in
      let asked : request (codec rt input output) m s ≡ x =
        λ i. (decode-encode_in rt h input output x vx i).1 in
      let told : (decode_out_pdu (codec rt input output) p.pdu).1 ≡ y =
        λ i. (decode-encode_out rt h input output y vy i).1 in
      let sent : InputType = record (request (codec rt input output) m s) {
        invokeid = to_sint (next_invokeid s.invokeid_gen_counter);
      } in
      let vsent : IsInput sent = (
        to_sint-IsSint (next_invokeid s.invokeid_gen_counter)
            (omega (arith, next_invokeid-le s.invokeid_gen_counter)),
        rw asked vx.1,
      ) in
      let none : (encode_in_pdu (codec rt input output) sent).0 ≡ 0 =
        λ i. (encode_in_pdu_lem rt h input output sent vsent i).0 in
      let (first, second) =
        process_request_reply (codec rt input output) s m rest p left e sk sockets fresh
          (rw asked vx.0) ((ap (λ o. o.invokeid) told) ∙ is_id) in
      (
        _,
        _,
        first,
        ap
              (λ n.
                if n == 0
                then s.w_out_messages
                  ++ record { pdu = (encode_in_pdu (codec rt input output) sent).1 } ∷ []
                else s.w_out_messages)
              none
            ∙ (λ i.
                s.w_out_messages
                ++ record {
                  pdu =
                      (encode_in_pdu (codec rt input output)
                        (record (asked i) { invokeid = sent.invokeid })).1;
                }
                  ∷ []),
        second,
        (λ i.
            s.w_in_messages
            ++ record {
              socket = socket;
              pdu =
                  (encode_out_pdu (codec rt input output)
                    (record (told i) { invokeid = (asked i).invokeid })).1;
            }
              ∷ []),
        refl,
      )

  -- The muxer is transparent to a client, at the level of messages. If the oldest request is the
  -- encoding of a message that messages.asn1 allows, from a client with a non-zero socket, then
  -- what is queued for the server decodes to the same message under the generated id. If the
  -- server's next answer is the encoding of an allowed message under that id, then what is queued
  -- for the client decodes to the server's message under the client's own id, and the mappings are
  -- as before. No older mapping has the generated id and all mappings have non-zero sockets. The
  -- run-time has the laws of `IsCoding`.
  pub request_reply_messages :
      (s : State) (socket : ℕ) (x : InputType) (y : OutputType) (rest : List InMessage)
      (left : List OutMessage)
      → IsInput x
      → IsOutput y
      → s.r_in_messages
        ≡ record { socket = socket; pdu = (encode_in_pdu (codec rt input output) x).1 } ∷ rest
      → 0 < socket
      → All HasSocket s.socket_to_recv_unicast_msg
      → IsFresh (next_invokeid s.invokeid_gen_counter) s.socket_to_recv_unicast_msg
      → y.invokeid ≡ to_sint (next_invokeid s.invokeid_gen_counter)
      → Forwarded rt input output s socket x y rest left
  request_reply_messages s socket x y rest left vx vy e sk sockets fresh is_id =
      let (s1, s2, first, queued, second, delivered, same) =
        request_reply-Routed s socket x y rest left vx vy e sk sockets fresh is_id in
      let under_id : IsInput
          (record x { invokeid = to_sint (next_invokeid s.invokeid_gen_counter) }) =
        (
          to_sint-IsSint (next_invokeid s.invokeid_gen_counter)
              (omega (arith, next_invokeid-le s.invokeid_gen_counter)),
          vx.1,
        ) in
      (
        s1,
        s2,
        request_pdu rt input output s x,
        reply_pdu rt input output x y,
        first,
        queued,
        decode-encode_in rt h input output _ under_id,
        second,
        delivered,
        decode-encode_out rt h input output _ (vx.0, vy.1, vy.2),
        same,
      )
