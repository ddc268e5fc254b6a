-- ===== src/Dispatcher/Link.antt =====
-- The muxer's writing thread and a receiver that reads frames, with the network between them.
use muxer.Base.{
  Bool, ℕ, ◌+◌, ◌≤◌, ◌≡◌, arith, inl, List, [], ◌∷◌, ◌++◌, length, map, All, Returns, Returns-imp,
  append-nil, sym, ap, ◌∙◌,
}
use muxer.Pdu.{buffer_ksize}
use muxer.Pdu.Framing.{frames, Fits}
use muxer.Pdu.Collecting.{collect, collect_all}
use muxer.State.{State, OutMessage}
use muxer.Dispatcher.Filling.{transmit, stream, IsReady}
use muxer.Dispatcher.Transmission.{transmit_all, Suffices}

fit :
    (queue : List OutMessage)
    → All (λ m. (2 ≤ length m.pdu) × (length m.pdu + 2 ≤ buffer_ksize)) queue
    → All (Fits buffer_ksize) (map (λ m. m.pdu) queue)
fit [] all = tt
fit (m ∷ queue) all = ((omega arith, all.0.1), fit queue all.1)

-- The messages queued for the server arrive, if the writing thread is woken often enough. The
-- server's send buffer is empty and the queued messages fit it. If other threads set
-- `h_event_new_message` before every turn of the writing thread, every `send` may take a byte and
-- there are as many turns as bytes in the frames, or if the event is set at first, every `send`
-- takes all that it is given and there are as many turns as messages; and if every `recv` may bring
-- a byte and there are as many calls of it as bytes; then the receiver has found exactly the queued
-- PDUs, in order, and nothing is left in its buffer or on the network. The server's connection
-- stands.
pub transmit-collect :
    (turns : List (Bool × ℕ)) (ms : List ℕ) (s : State)
    → IsReady s
    → s.out_connection.w_buffer ≡ []
    → Suffices turns s
    → All (λ n. 1 ≤ n) ms
    → length (stream s) ≤ length ms
    → Returns
        (λ (out, s').
          Returns
            (λ (pdus, left, rest).
              (pdus ≡ map (λ m. m.pdu) s.w_out_messages) × (left ≡ []) × (rest ≡ []))
            (collect buffer_ksize [] out ms))
        (transmit turns s)
transmit-collect turns ms s ready empty suffices all' enough' =
    Returns-imp _ _ (transmit turns s)
      (λ (out, s') (sent, w, queue).
        let pdus = map (λ m. m.pdu) s.w_out_messages in
        let net : out ≡ frames pdus ++ [] = sent ∙ (rw empty (sym (append-nil (frames pdus)))) in
        let size = ap length sent in
        collect_all buffer_ksize pdus [] out ms (omega arith) (fit s.w_out_messages ready.1)
          (inl (omega arith)) net all' (omega arith))
      (transmit_all turns s ready empty suffices)
