-- ===== src/System/Writing.antt =====
-- What the writing thread does to one connection and to the queues of a well-formed state.
use muxer.Base.{
  ℕ, ◌+◌, ◌≤◌, ◌≡◌, refl, arith, Bool, true, false, List, [], ◌∷◌, ◌==◌, length, length-drop, All,
  All-keep, All-imp, has, ok, Returns, Returns-imp, >>=-Returns, if◌then◌else◌, le→leb, ltb,
  Bool-cases, inl, inr,
}
use muxer.Pdu.{Pdu, buffer_ksize, write_pdu_to_send_buffer}
use muxer.State.{State, Connection, InMessage, OutMessage}
use muxer.Protocol.{Codec}
use muxer.Dispatcher.Buffers.{
  Sent, sent, send_error, send_part, write_data, fill_out_buffer, write_data_to_out_buffer,
  free_w_in_messages_mapped_to_invalid_sockets,
}
use muxer.Dispatcher.Delivery.{free_w_in_messages_lem, has_client}
use muxer.Dispatcher.Sockets.{FdSet, write_ready, cleared}
use muxer.System.{Sound, WellFormed, IsConnection, IsSendable, IsTaken}
use muxer.System.Clients.{Expects, Expects-done}

pub write_pdu-Returns :
    (pdu : Pdu)
    → IsSendable pdu
    → Returns (λ w. length w ≤ buffer_ksize) (write_pdu_to_send_buffer pdu buffer_ksize)
unfolding write_pdu_to_send_buffer
write_pdu-Returns pdu fits =
    rw (le→leb (2 + length pdu) buffer_ksize (omega arith), le→leb 2 (length pdu) fits.0)
      (omega arith)

send_part-Returns :
    (c : Connection) (bytes : ℕ)
    → IsConnection c
    → bytes ≤ length c.w_buffer
    → Returns (λ (c', fine). (c'.socket ≡ c.socket) × IsConnection c') (send_part c bytes)
unfolding send_part
send_part-Returns c bytes conn few = elim (Bool-cases (bytes == length c.w_buffer)) [
  | inl all ↦ rw all (refl, (conn.0, conn.1, omega arith))
  | inr part ↦
      rw (part, le→leb bytes (length c.w_buffer) few)
        (refl, (conn.0, conn.1, omega (arith, length-drop bytes c.w_buffer)))
]

write_data-Returns :
    (c : Connection) (took : Sent)
    → IsConnection c
    → IsTaken c took
    → Returns (λ (c', fine). (c'.socket ≡ c.socket) × IsConnection c') (write_data c took)
unfolding write_data
write_data-Returns c (send_error err) conn taken =
    rw (le→leb (length c.w_buffer) buffer_ksize conn.2) (refl, conn)
write_data-Returns c (sent bytes) conn taken =
    rw (le→leb (length c.w_buffer) buffer_ksize conn.2)
      (elim (Bool-cases (ltb 0 (length c.w_buffer))) [
        | inl more ↦ rw more (send_part-Returns c bytes conn taken)
        | inr nothing ↦ rw nothing (refl, conn)
      ])

-- What the writing to one connection comes to. `C` is what is expected of the sockets in the set.
abbrev pub Wrote : (Connection → Type 0) → FdSet → FdSet → Connection → Connection × Bool → Type 0
Wrote C w_fd e_fd c (c', fine) =
    (c'.socket ≡ c.socket)
    × IsConnection c'
    × (fine ≡ true
        → (q : Connection) → q.socket ≡ c.socket
        → Expects C (cleared c.socket w_fd e_fd).0 q)

write_ready_out :
    (c : Connection) (w_fd e_fd : FdSet) (took : Sent)
    → has c.socket e_fd ≡ true
    → write_ready c w_fd e_fd took ≡ ok (c, false)
unfolding write_ready
write_ready_out c w_fd e_fd took out = rw out refl

write_ready_in :
    (c : Connection) (w_fd e_fd : FdSet) (took : Sent)
    → has c.socket e_fd ≡ false
    → write_ready c w_fd e_fd took ≡ (if has c.socket w_fd then write_data c took else ok (c, true))
unfolding write_ready
write_ready_in c w_fd e_fd took fine = rw fine refl

pub write_ready-Returns :
    (C : Connection → Type 0) (c : Connection) (w_fd e_fd : FdSet) (took : Sent)
    → IsConnection c
    → (has c.socket w_fd ≡ true → IsTaken c took)
    → Returns (Wrote C w_fd e_fd c) (write_ready c w_fd e_fd took)
write_ready-Returns C c w_fd e_fd took conn taken = elim (Bool-cases (has c.socket e_fd)) [
  | inl out ↦ rw (write_ready_out c w_fd e_fd took out) (refl, conn, λ e. absurd (cc e))
  | inr fine ↦
      let done : (q : Connection)
          → q.socket ≡ c.socket
          → Expects C (cleared c.socket w_fd e_fd).0 q =
        λ q e. Expects-done C c.socket w_fd e_fd q e fine in
      rw (write_ready_in c w_fd e_fd took fine) (elim (Bool-cases (has c.socket w_fd)) [
        | inl there ↦ rw there (
            Returns-imp _ (Wrote C w_fd e_fd c) (write_data c took)
              (λ (c', fine') (same, conn'). (same, conn', λ e. done))
              (write_data-Returns c took conn (taken there)))
        | inr idle ↦ rw idle (refl, conn, λ e. done)
      ])
]

module _ (codec : Codec) (s : State) (h : WellFormed codec s) where
  fill_out_buffer-Returns :
      (queue : List OutMessage)
      → All (λ m. IsSendable m.pdu) queue
      → Returns (WellFormed codec) (fill_out_buffer queue s)
  unfolding fill_out_buffer
  fill_out_buffer-Returns [] all = h
  fill_out_buffer-Returns (p ∷ rest) all =
      >>=-Returns (λ w. length w ≤ buffer_ksize) (WellFormed codec)
        (write_pdu_to_send_buffer p.pdu buffer_ksize) _ (write_pdu-Returns p.pdu all.0)
        (λ w small. (
          record {
            mappings = h.0.mappings;
            requests = h.0.requests;
            answers = h.0.answers;
            to_clients = h.0.to_clients;
            to_server = all.1;
            server = (h.0.server.0, h.0.server.1, small);
            counter = h.0.counter;
          },
          h.1,
        ))

  pub write_data_to_out_buffer-Returns : Returns (WellFormed codec) (write_data_to_out_buffer s)
  unfolding write_data_to_out_buffer
  write_data_to_out_buffer-Returns =
      rw (le→leb (length s.out_connection.w_buffer) buffer_ksize h.0.server.2)
        (elim (Bool-cases (length s.out_connection.w_buffer == 0)) [
          | inl empty ↦ rw empty (fill_out_buffer-Returns s.w_out_messages h.0.to_server)
          | inr full ↦ rw full h
        ])

  -- The same state with other messages for the clients.
  pub Sound-to_clients :
      (queue : List InMessage) (cs : List Connection)
      → All (λ m. IsSendable m.pdu) queue
      → Sound codec (record s { w_in_messages = queue; connections = cs })
  Sound-to_clients queue cs all = record {
    mappings = h.0.mappings;
    requests = h.0.requests;
    answers = h.0.answers;
    to_clients = all;
    to_server = h.0.to_server;
    server = h.0.server;
    counter = h.0.counter;
  }

  pub free_w_in_messages-Returns :
      Returns (WellFormed codec) (free_w_in_messages_mapped_to_invalid_sockets s)
  free_w_in_messages-Returns =
      rw (free_w_in_messages_lem s (All-imp s.connections (λ c client. client.1.2) h.1.1)) (
        Sound-to_clients _ s.connections
            (All-keep _ (has_client s.connections) s.w_in_messages h.0.to_clients),
        h.1,
      )
