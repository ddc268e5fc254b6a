-- ===== src/Protocol/Reply.antt =====
-- What `process_incoming_out_messages` of muxer/protocol.c does with an answer of the server.
use muxer.Base.{
  ℕ, ◌<◌, ◌≡◌, refl, List, [], ◌∷◌, ◌++◌, ◌==◌, true, false, Bool, not, Bool-cases, inl, inr,
  lt→ltb, ok, to_uint, to_sint, map, keep, All, append_assoc, append-nil, ◌||◌, ◌∙◌,
}
use muxer.State.{State, InMessage, OutMessage, Mapping, OutputType}
use muxer.Protocol.{Codec, encode_out_pdu, decode_out_pdu, route_reply, process_reply}

or_true : (b : Bool) → (b || true) ≡ true
or_true true = refl
or_true false = refl

abbrev pub HasSocket : Mapping → Type 0
HasSocket m = 0 < m.socket

abbrev pub is_for : ℕ → Mapping → Bool
is_for id m = m.invokeid_generated == id

abbrev pub is_not_for : ℕ → Mapping → Bool
is_not_for id m = not (is_for id m)

module _ (codec : Codec) (o : OutputType) where
  -- The answer as the client of a mapping gets it: under the id that the client chose.
  abbrev pub answer : Mapping → InMessage
  answer m = record {
    socket = m.socket;
    pdu = (encode_out_pdu codec (record o { invokeid = to_sint m.invokeid_original })).1;
  }

  abbrev pub answers : ℕ → List Mapping → List InMessage
  answers id ms = map answer (keep (is_for id) ms)

  abbrev pub is_awaited : ℕ → List Mapping → Bool
  is_awaited id [] = false
  is_awaited id (m ∷ ms) = is_for id m || is_awaited id ms

  -- The state with the answers queued.
  abbrev pub with_answers : ℕ → List Mapping → State → State
  with_answers id ms s = record s {
    w_in_messages = s.w_in_messages ++ answers id ms;
    event_new_message = is_awaited id ms || s.event_new_message;
  }

  route_reply_lem :
      (id : ℕ) (ms : List Mapping) (s : State)
      → All HasSocket ms
      → route_reply codec o id ms s ≡ ok (keep (is_not_for id) ms, with_answers id ms s)
  unfolding route_reply
  route_reply_lem id [] s h = rw (append-nil s.w_in_messages)
  route_reply_lem id (m ∷ ms) s h = elim (Bool-cases (is_for id m)) [
    | inl hit ↦
        rw (hit, route_reply, lt→ltb 0 m.socket h.0)
          (route_reply_lem id ms _ h.1
            ∙ (rw (
              append_assoc s.w_in_messages (answer m ∷ []) (answers id ms),
              or_true (is_awaited id ms),
            )))
    | inr miss ↦ rw (miss, route_reply) (rw (route_reply_lem id ms s h.1) refl)
  ]

  -- If all mappings have non-zero sockets, an answer goes to every client whose mapping carries its
  -- id, in the order of the mappings, and those mappings are gone. The other mappings stay, and
  -- nothing else changes; an answer that no mapping awaits is dropped.
  pub process_reply_lem :
      (p : OutMessage) (s : State)
      → o ≡ (decode_out_pdu codec p.pdu).1
      → All HasSocket s.socket_to_recv_unicast_msg
      → process_reply codec p s
        ≡ ok (record (with_answers (to_uint o.invokeid) s.socket_to_recv_unicast_msg s) {
          socket_to_recv_unicast_msg =
              keep (is_not_for (to_uint o.invokeid)) s.socket_to_recv_unicast_msg;
        })
  unfolding process_reply
  process_reply_lem p s e h =
      rw (← e, route_reply_lem (to_uint o.invokeid) s.socket_to_recv_unicast_msg s h)
