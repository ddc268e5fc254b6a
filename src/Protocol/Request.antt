-- ===== src/Protocol/Request.antt =====
-- What `process_incoming_in_messages` of muxer/protocol.c does on every branch.
use muxer.Base.{
  ℕ, ◌<◌, ◌≡◌, arith, List, [], ◌∷◌, ◌++◌, ◌==◌, if◌then◌else◌, true, lt→ltb, ok, to_uint, to_sint,
}
use muxer.Pdu.{Pdu}
use muxer.State.{State, InMessage, Mapping, InputType}
use muxer.Protocol.{
  Codec, next_invokeid, encode_in_pdu, decode_in_pdu, process_request, process_incoming_in_messages,
  take_request,
}

module _ (codec : Codec) (m : InMessage) (s : State) where
  -- What the decoder makes of the request.
  abbrev pub request : InputType
  request = (decode_in_pdu codec m.pdu).1

  abbrev pub generated : ℕ
  generated = next_invokeid s.invokeid_gen_counter

  -- The mapping that is remembered for the answer.
  abbrev pub pending : Mapping
  pending = record {
    socket = m.socket;
    invokeid_original = to_uint request.invokeid;
    invokeid_generated = generated;
  }

  -- The request under the generated id, and the encoder's error.
  abbrev pub forwarded : ℕ × Pdu
  forwarded = encode_in_pdu codec (record request { invokeid = to_sint generated })

  -- The state once the request is dealt with.
  abbrev pub requested : State
  requested =
      let sent = forwarded.0 == 0 in
      record s {
        invokeid_gen_counter = generated;
        socket_to_recv_unicast_msg = s.socket_to_recv_unicast_msg ++ pending ∷ [];
        w_out_messages =
            if sent
            then s.w_out_messages ++ record { pdu = forwarded.1 } ∷ []
            else s.w_out_messages;
        event_new_message = if sent then true else s.event_new_message;
      }

  pub process_request_lem : 0 < m.socket → process_request codec m s ≡ ok requested
  unfolding process_request
  process_request_lem h = ground arith

module _ (codec : Codec) (s : State) where
  -- If the oldest request comes from a non-zero socket, it is taken off `r_in_messages` and gets
  -- the next invoke id. Its sender and its own id are remembered, and it is queued for the server
  -- under the new id; if the encoder refuses it nothing is queued, but the mapping stays. No
  -- assertion fails.
  pub process_incoming_in_messages_lem :
      (m : InMessage) (rest : List InMessage)
      → s.r_in_messages ≡ m ∷ rest
      → 0 < m.socket
      → process_incoming_in_messages codec s
        ≡ ok (requested codec m (record s { r_in_messages = rest }))
  unfolding process_incoming_in_messages process_request
  process_incoming_in_messages_lem m rest e h =
      rw (e, take_request, lt→ltb 0 m.socket h)
        (process_request_lem codec m (record s { r_in_messages = rest }) h)

  pub process_incoming_in_messages_empty :
      s.r_in_messages ≡ [] → process_incoming_in_messages codec s ≡ ok s
  unfolding process_incoming_in_messages
  process_incoming_in_messages_empty e = rw (e, take_request)
