-- ===== src/Protocol/RoundTrip.antt =====
-- A request and the answer to it on their way through muxer/protocol.c.
use muxer.Base.{
  ℕ, ◌<◌, ◌≤◌, ◌≡◌, refl, arith, List, [], ◌∷◌, ◌++◌, true, ok, to_uint, to_sint, keep, All,
  append-nil, ◌∙◌, ◌≢◌, IsSint, to_sint-to_uint, All-append, sint_max, eq_refl,
}
use muxer.State.{State, InMessage, OutMessage, Mapping, OutputType}
use muxer.Protocol.{
  Codec, encode_out_pdu, decode_out_pdu, process_reply, process_incoming_in_messages,
  process_incoming_out_messages, take_reply, next_invokeid,
}
use muxer.Protocol.Request.{
  request, generated, pending, requested, process_incoming_in_messages_lem,
}
use muxer.Protocol.Reply.{HasSocket, is_for, is_not_for, answer, is_awaited, process_reply_lem}

-- No mapping of the list carries the id.
abbrev pub IsFresh : ℕ → List Mapping → Type 0
IsFresh id ms = All (λ m. m.invokeid_generated ≢ id) ms

keep-IsFresh : (id : ℕ) (ms : List Mapping) → IsFresh id ms → keep (is_not_for id) ms ≡ ms
keep-IsFresh id [] h = refl
keep-IsFresh id (m ∷ ms) h = ground (arith, keep-IsFresh id ms h.1)

keep-IsFresh_none : (id : ℕ) (ms : List Mapping) → IsFresh id ms → keep (is_for id) ms ≡ []
keep-IsFresh_none id [] h = refl
keep-IsFresh_none id (m ∷ ms) h = ground (arith, keep-IsFresh_none id ms h.1)

keep-split :
    (m : Mapping) (before after : List Mapping)
    → IsFresh m.invokeid_generated before
    → IsFresh m.invokeid_generated after
    → (keep (is_not_for m.invokeid_generated) (before ++ m ∷ after) ≡ before ++ after)
      × (keep (is_for m.invokeid_generated) (before ++ m ∷ after) ≡ m ∷ [])
keep-split m [] after fb fa =
    let id = m.invokeid_generated in
    (rw (eq_refl id) (keep-IsFresh id after fa), rw (eq_refl id, keep-IsFresh_none id after fa))
keep-split m (k ∷ before) after fb fa = ground (arith, keep-split m before after fb.1 fa)

is_awaited-split :
    (codec : Codec) (o : OutputType) (m : Mapping) (before after : List Mapping)
    → is_awaited codec o m.invokeid_generated (before ++ m ∷ after) ≡ true
is_awaited-split codec o m [] after = ground arith
is_awaited-split codec o m (k ∷ before) after =
    ground (arith, is_awaited-split codec o m before after)

to_uint-to_sint : (n : ℕ) → n ≤ sint_max → to_uint (to_sint n) ≡ n
unfolding to_uint to_sint
to_uint-to_sint n h = ground arith

pub next_invokeid-le : (counter : ℕ) → next_invokeid counter ≤ sint_max
unfolding next_invokeid
next_invokeid-le counter = omega arith

module _ (codec : Codec) (s : State) where
  -- An answer whose id stands in exactly one mapping, wherever it stands, goes to that mapping's
  -- client under the client's own id, at the end of `w_in_messages`, and ends that mapping; all the
  -- others stay in order. All mappings have non-zero sockets.
  pub process_reply_delivers :
      (p : OutMessage) (m : Mapping) (before after : List Mapping)
      → s.socket_to_recv_unicast_msg ≡ before ++ m ∷ after
      → to_uint (decode_out_pdu codec p.pdu).1.invokeid ≡ m.invokeid_generated
      → IsFresh m.invokeid_generated before
      → IsFresh m.invokeid_generated after
      → All HasSocket s.socket_to_recv_unicast_msg
      → process_reply codec p s
        ≡ ok (record s {
          socket_to_recv_unicast_msg = before ++ after;
          w_in_messages = s.w_in_messages ++ answer codec (decode_out_pdu codec p.pdu).1 m ∷ [];
          event_new_message = true;
        })
  process_reply_delivers p m before after split is_id fb fa sockets =
      let o = (decode_out_pdu codec p.pdu).1 in
      let (others, this) = keep-split m before after fb fa in
      process_reply_lem codec o p s refl sockets
      ∙ (rw (is_id, split, others, this, is_awaited-split codec o m before after))

  pub process_incoming_out_messages_lem :
      (p : OutMessage) (left : List OutMessage)
      → s.r_out_messages ≡ p ∷ left
      → process_incoming_out_messages codec s
        ≡ process_reply codec p (record s { r_out_messages = left })
  unfolding process_incoming_out_messages
  process_incoming_out_messages_lem p left e = rw (e, take_reply)

module _ (codec : Codec) (s : State) (m : InMessage) (rest : List InMessage) where
  -- The state after the request `m` is taken and the server's messages `out` have come in.
  abbrev pub answered : List OutMessage → State
  answered out = record (requested codec m (record s { r_in_messages = rest })) {
    r_out_messages = out;
  }

  -- The server's message `p`, under the invoke id of the client's request.
  abbrev pub translated : OutMessage → InMessage
  translated p = record {
    socket = m.socket;
    pdu =
        (encode_out_pdu codec
          (record ((decode_out_pdu codec p.pdu).1) { invokeid = (request codec m s).invokeid })).1;
  }

  -- The muxer is transparent to a client. If the oldest request comes from a client with a non-zero
  -- socket and carries an invoke id in the signed range, it is taken and, unless the encoder
  -- refuses it, queued for the server; and if the next answer of the server carries the generated
  -- id, that id is in no older mapping, and all mappings have non-zero sockets, then exactly one
  -- message is queued for the clients: for the one that asked, with its own invoke id put back. The
  -- mappings are then as before the request.
  pub process_request_reply :
      (p : OutMessage) (left : List OutMessage)
      → s.r_in_messages ≡ m ∷ rest
      → 0 < m.socket
      → All HasSocket s.socket_to_recv_unicast_msg
      → IsFresh (generated codec m s) s.socket_to_recv_unicast_msg
      → IsSint (request codec m s).invokeid
      → (decode_out_pdu codec p.pdu).1.invokeid ≡ to_sint (generated codec m s)
      → (process_incoming_in_messages codec s
          ≡ ok (requested codec m (record s { r_in_messages = rest })))
        × (process_incoming_out_messages codec (answered (p ∷ left))
            ≡ ok (record (answered left) {
              socket_to_recv_unicast_msg = s.socket_to_recv_unicast_msg;
              w_in_messages = s.w_in_messages ++ translated p ∷ [];
              event_new_message = true;
            }))
  process_request_reply p left e h sockets fresh sint is_id = (
    process_incoming_in_messages_lem codec s m rest e h,
    process_incoming_out_messages_lem codec (answered (p ∷ left)) p left refl
        ∙ process_reply_delivers codec (answered left) p (pending codec m s)
            s.socket_to_recv_unicast_msg [] refl
            (rw is_id (to_uint-to_sint (generated codec m s) small)) fresh tt
            (All-append HasSocket s.socket_to_recv_unicast_msg (pending codec m s ∷ []) sockets
              (h, tt))
        ∙ (rw (
          append-nil s.socket_to_recv_unicast_msg,
          to_sint-to_uint (request codec m s).invokeid sint,
        )),
  )
    where
      small : generated codec m s ≤ sint_max
      small = next_invokeid-le s.invokeid_gen_counter
