-- ===== src/System/Processing.antt =====
-- What the processing thread and the cleanup do to a well-formed state.
use muxer.Base.{
  to_uint-lt, ℕ, ◌≤◌, ◌<◌, ◌≡◌, refl, arith, Bool, true, false, List, [], ◌∷◌, ◌++◌, ◌==◌, map,
  keep, All, All-keep, All-imp, All-append, ok, Returns, if◌then◌else◌, Option, none, some,
  Bool-cases, inl, inr,
}
use muxer.Pdu.{Pdu}
use muxer.State.{State, Mapping, InMessage, OutMessage}
use muxer.Protocol.{
  Codec, next_invokeid, max_invokeid, decode_out_pdu, process_incoming_in_messages,
  process_incoming_out_messages, take_reply,
}
use muxer.Protocol.Request.{process_incoming_in_messages_lem, process_incoming_in_messages_empty}
use muxer.Protocol.Reply.{answer, process_reply_lem}
use muxer.Protocol.RoundTrip.{process_incoming_out_messages_lem}
use muxer.Dispatcher.Threads.{Attempt, try_addresses, connect_to_output, cleanup_round}
use muxer.Dispatcher.Cleanup.{cleanup_lem}
use muxer.System.{WellFormed, IsMapping, IsSendable, IsAnswer, IsRequest, connect_unless_ok}

next_invokeid-le_max : (counter : ℕ) → next_invokeid counter ≤ max_invokeid
unfolding next_invokeid
next_invokeid-le_max counter = omega arith

eq_zero : (n : ℕ) → (n == 0) ≡ true → n ≡ 0
eq_zero n h = ground arith

module _ (codec : Codec) where
  answers-IsSendable :
      (p : Pdu) (test : Mapping → Bool) (ms : List Mapping)
      → IsAnswer codec p
      → All IsMapping ms
      → All (λ m. IsSendable m.pdu) (map (answer codec (decode_out_pdu codec p).1) (keep test ms))
  answers-IsSendable p test [] h all = tt
  answers-IsSendable p test (m ∷ ms) h all = elim (Bool-cases (test m)) [
    | inl hit ↦ rw (hit, keep) (h m.invokeid_original all.0.1, answers-IsSendable p test ms h all.1)
    | inr miss ↦ rw (miss, keep) (answers-IsSendable p test ms h all.1)
  ]

  process_incoming_out_messages_empty :
      (s : State) → s.r_out_messages ≡ [] → process_incoming_out_messages codec s ≡ ok s
  unfolding process_incoming_out_messages
  process_incoming_out_messages_empty s e = rw (e, take_reply)

  reply-Returns :
      (queue : List OutMessage) (s : State)
      → s.r_out_messages ≡ queue
      → WellFormed codec s
      → Returns (WellFormed codec) (process_incoming_out_messages codec s)
  reply-Returns [] s e h = rw (process_incoming_out_messages_empty s e) h
  reply-Returns (p ∷ left) s e h =
      let (first, others) : IsAnswer codec p.pdu × All (λ m. IsAnswer codec m.pdu) left =
        rw e at h.0.answers in
      rw
        (
          process_incoming_out_messages_lem codec s p left e,
          process_reply_lem codec (decode_out_pdu codec p.pdu).1 p
              (record s { r_out_messages = left }) refl
              (All-imp s.socket_to_recv_unicast_msg (λ m mapping. mapping.0) h.0.mappings),
        )
        (
          record {
            mappings = All-keep IsMapping _ s.socket_to_recv_unicast_msg h.0.mappings;
            requests = h.0.requests;
            answers = others;
            to_clients =
                All-append _ s.w_in_messages _ h.0.to_clients
                  (answers-IsSendable p.pdu _ s.socket_to_recv_unicast_msg first h.0.mappings);
            to_server = h.0.to_server;
            server = h.0.server;
            counter = h.0.counter;
          },
          h.1,
        )

  sent_on :
      (queue : List OutMessage) (err : ℕ) (pdu : Pdu)
      → All (λ m. IsSendable m.pdu) queue
      → (err ≡ 0 → IsSendable pdu)
      → All (λ m. IsSendable m.pdu) (if err == 0 then queue ++ record { pdu = pdu } ∷ [] else queue)
  sent_on queue err pdu all good = elim (Bool-cases (err == 0)) [
    | inl fine ↦ rw fine (All-append _ queue _ all (good (eq_zero err fine), tt))
    | inr bad ↦ rw bad all
  ]

  request-Returns :
      (queue : List InMessage) (s : State)
      → s.r_in_messages ≡ queue
      → WellFormed codec s
      → Returns (WellFormed codec) (process_incoming_in_messages codec s)
  request-Returns [] s e h = rw (process_incoming_in_messages_empty codec s e) h
  request-Returns (m ∷ rest) s e h =
      let (first, others) : ((0 < m.socket) × IsRequest codec m.pdu)
          × All (λ r. (0 < r.socket) × IsRequest codec r.pdu) rest =
        rw e at h.0.requests in
      rw (process_incoming_in_messages_lem codec s m rest e first.0) (
        record {
          mappings =
              All-append IsMapping s.socket_to_recv_unicast_msg _ h.0.mappings
                ((first.0, to_uint-lt _), tt);
          requests = others;
          answers = h.0.answers;
          to_clients = h.0.to_clients;
          to_server = sent_on s.w_out_messages _ _ h.0.to_server (
              first.1 (next_invokeid s.invokeid_gen_counter)
                (next_invokeid-le_max s.invokeid_gen_counter));
          server = h.0.server;
          counter = next_invokeid-le_max s.invokeid_gen_counter;
        },
        h.1,
      )

  pub process_incoming_out_messages-Returns :
      (s : State)
      → WellFormed codec s
      → Returns (WellFormed codec) (process_incoming_out_messages codec s)
  process_incoming_out_messages-Returns s h = reply-Returns s.r_out_messages s refl h

  pub process_incoming_in_messages-Returns :
      (s : State)
      → WellFormed codec s
      → Returns (WellFormed codec) (process_incoming_in_messages codec s)
  process_incoming_in_messages-Returns s h = request-Returns s.r_in_messages s refl h

  moved :
      (s : State)
      → WellFormed codec s
      → (socket : ℕ) (good : Bool)
      → let conn = s.out_connection in
        WellFormed codec (record s {
          out_connection = record conn { socket = socket };
          is_out_connection_ok = good;
        })
  moved s h socket good = (
    record {
      mappings = h.0.mappings;
      requests = h.0.requests;
      answers = h.0.answers;
      to_clients = h.0.to_clients;
      to_server = h.0.to_server;
      server = h.0.server;
      counter = h.0.counter;
    },
    h.1,
  )

  either :
      (b : Bool) (s t : State)
      → WellFormed codec s
      → WellFormed codec t
      → WellFormed codec (if b then s else t)
  either true s t h k = h
  either false s t h k = k

  pub connect_unless_ok-WellFormed :
      (addresses : Option (List Attempt)) (s : State)
      → WellFormed codec s
      → WellFormed codec (connect_unless_ok addresses s)
  unfolding connect_unless_ok connect_to_output
  connect_unless_ok-WellFormed none s h = either s.is_out_connection_ok s s h h
  connect_unless_ok-WellFormed (some attempts) s h =
      let socket = (try_addresses attempts s.out_connection.socket).0 in
      either s.is_out_connection_ok s _ h
        (either _ _ _ (moved s h socket true) (moved s h socket s.is_out_connection_ok))

  pub cleanup_round-Returns :
      (s : State) → WellFormed codec s → Returns (WellFormed codec) (cleanup_round s)
  unfolding cleanup_round
  cleanup_round-Returns s h =
      rw (cleanup_lem (record s { event_new_message = true; event_process_data = true }) h.1.0) (
        record {
          mappings = All-keep IsMapping _ s.socket_to_recv_unicast_msg h.0.mappings;
          requests = tt;
          answers = tt;
          to_clients = tt;
          to_server = tt;
          server = (inl (omega arith), omega arith, omega arith);
          counter = h.0.counter;
        },
        (tt, tt),
      )
