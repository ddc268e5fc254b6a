-- ===== src/Dispatcher/Filling.antt =====
-- The turns of the writing thread of muxer/dispatcher.c, and how the server's send buffer is filled.
use muxer.Base.{
  Bool, true, false, not, ◌||◌, if◌then◌else◌, ℕ, ◌+◌, ◌-◌, ◌≤◌, ◌<◌, ◌≡◌, refl, arith, List, [],
  ◌∷◌, ◌++◌, ◌==◌, length, length-zero, take, drop, min, map, All, Outcome, ok, ◌>>=◌, Returns,
  le→leb, eq_refl, Bool-cases, inl, inr, ap, ◌∙◌,
}
use muxer.Pdu.{Pdu, buffer_ksize, write_pdu_to_send_buffer}
use muxer.Pdu.Framing.{frame, frames}
use muxer.Pdu.Writing.{write_lem}
use muxer.State.{State, OutMessage}
use muxer.Dispatcher.Buffers.{sent, write_data_to_out_buffer, fill_out_buffer}
use muxer.Dispatcher.Delivery.{write_data-sent}
use muxer.Dispatcher.Threads.{is_empty}
use muxer.Dispatcher.Sockets.{write_out_socket}

-- What `thread_comm_write` does with `h_event_new_message` at the end of a round.
unfoldable pub signal_again : State → State
signal_again s = record s {
  event_new_message =
      if not (is_empty s.w_in_messages) || not (is_empty s.w_out_messages)
      then true
      else s.event_new_message;
}

-- Turns of the writing thread while the server's connection stands. For each, whether another
-- thread has set `h_event_new_message` before it, and how many bytes `send` takes at most. If the
-- event is not set the thread waits; else the wait resets it, the send buffer takes the next message
-- if it is empty, and `send` takes bytes of it. What a round does for the clients, which is not seen by the
-- server, is left out. All the bytes that went out, and the state.
unfoldable pub transmit : List (Bool × ℕ) → State → Outcome (List ℕ × State)
unfolding signal_again
transmit [] s = ok ([], s)
transmit ((signalled, n) ∷ turns) s = elim (signalled || s.event_new_message) [
  | false ↦ transmit turns s
  | true ↦ do
    s1 ← write_data_to_out_buffer (record s { event_new_message = false })
    let buf = s1.out_connection.w_buffer
    s2 ← write_out_socket (s1.out_connection.socket ∷ []) [] (sent (min n (length buf))) s1
    (out, last) ← transmit turns (signal_again s2)
    ok (take (min n (length buf)) buf ++ out, last)
]

-- The bytes of the messages for the server.
abbrev pub queued : State → List ℕ
queued s = frames (map (λ m. m.pdu) s.w_out_messages)

-- The bytes that the server is still to get.
abbrev pub stream : State → List ℕ
stream s = s.out_connection.w_buffer ++ queued s

-- The send buffer is no longer than it can be, and the messages fit into it.
abbrev pub IsReady : State → Type 0
IsReady s =
    (length s.out_connection.w_buffer ≤ buffer_ksize)
    × All (λ m. (2 ≤ length m.pdu) × (length m.pdu + 2 ≤ buffer_ksize)) s.w_out_messages

pub frame-written :
    (p : Pdu)
    → 2 ≤ length p
    → length p + 2 ≤ buffer_ksize
    → write_pdu_to_send_buffer p buffer_ksize ≡ ok (frame p)
frame-written p low high =
    write_lem p buffer_ksize (omega arith)
    ∙ (rw (le→leb 2 (length p) low, le→leb (2 + length p) buffer_ksize (omega arith)))

-- After the buffer is filled the same bytes are to be sent, and some are in the buffer if there are
-- any.
abbrev pub Fills : State → State → Type 0
Fills s s1 =
    IsReady s1
    × (stream s1 ≡ stream s)
    × (0 < length (stream s) → 0 < length s1.out_connection.w_buffer)
    × (s.out_connection.w_buffer ≡ [] → length s1.w_out_messages ≡ length s.w_out_messages - 1)

fill_out_buffer-Fills :
    (queue : List OutMessage) (s : State)
    → s.w_out_messages ≡ queue
    → s.out_connection.w_buffer ≡ []
    → IsReady s
    → Returns (Fills s) (fill_out_buffer queue s)
unfolding fill_out_buffer frames frame
fill_out_buffer-Fills [] s e empty ready =
    let none : stream s ≡ [] = rw (empty, e) refl in
    (ready, refl, (λ some. absurd (omega (arith, ap length none))), λ _. rw e refl)
fill_out_buffer-Fills (p ∷ rest) s e empty ready =
    let all : ((2 ≤ length p.pdu) × (length p.pdu + 2 ≤ buffer_ksize))
        × All (λ m. (2 ≤ length m.pdu) × (length m.pdu + 2 ≤ buffer_ksize)) rest =
      rw e at ready.1 in
    rw (frame-written p.pdu all.0.0 all.0.1)
      ((omega arith, all.1), rw (empty, e) refl, (λ some. omega arith), λ _. rw e (omega arith))

pub write_data_to_out_buffer-Fills :
    (s : State) → IsReady s → Returns (Fills s) (write_data_to_out_buffer s)
unfolding write_data_to_out_buffer
write_data_to_out_buffer-Fills s ready =
    rw (le→leb (length s.out_connection.w_buffer) buffer_ksize ready.0)
      (elim (Bool-cases (length s.out_connection.w_buffer == 0)) [
        | inl empty ↦ rw empty (
            fill_out_buffer-Fills s.w_out_messages s refl
              (length-zero s.out_connection.w_buffer (ground arith)) ready)
        | inr full ↦ rw full (
          ready,
          refl,
          (λ some. ground arith),
          λ none. absurd (let zero = ap length none in ground (arith, full, zero)),
        )
      ])

-- The state once `send` has taken so many bytes.
abbrev pub after_send : ℕ → State → State
after_send k s =
    let conn = s.out_connection in
    record s { out_connection = record conn { w_buffer = drop k conn.w_buffer } }

pub write_out_socket-sent :
    (s : State) (k : ℕ)
    → IsReady s
    → k ≤ length s.out_connection.w_buffer
    → write_out_socket (s.out_connection.socket ∷ []) [] (sent k) s ≡ ok (after_send k s)
unfolding write_out_socket
write_out_socket-sent s k ready few =
    rw (eq_refl s.out_connection.socket, write_data-sent s.out_connection k ready.0 few)
