-- ===== src/Dispatcher/Transmission.antt =====
-- How the writing thread of muxer/dispatcher.c brings the messages for the server onto the wire.
use muxer.Base.{
  Bool, true, false, not, ◌||◌, if◌then◌else◌, ◌⊎◌, ℕ, suc, ◌-◌, ◌≤◌, ◌<◌, ◌≡◌, refl, arith, List,
  [], ◌∷◌, ◌++◌, length, length-append, length-drop, length-zero, take, drop, take-append-drop, min,
  map, All, Returns, Returns-imp, >>=-Returns, append_assoc, append-nil, Bool-cases, inl, inr, sym,
  ap, ◌∙◌, dec_lt,
}
use muxer.Pdu.{buffer_ksize}
use muxer.Pdu.Framing.{frame, frames}
use muxer.State.{State, OutMessage}
use muxer.Dispatcher.Buffers.{write_data_to_out_buffer}
use muxer.Dispatcher.Threads.{is_empty}
use muxer.Dispatcher.Filling.{
  signal_again, transmit, queued, stream, IsReady, Fills, after_send,
  write_data_to_out_buffer-Fills, write_out_socket-sent,
}

-- The event is set if a message is queued.
abbrev IsAwake : State → Type 0
IsAwake s = not (is_empty s.w_out_messages) ≡ true → s.event_new_message ≡ true

-- What has been sent and what is still to be sent, and how much is left of it: if other threads
-- wake the writing thread before every turn, and if every `send` takes all that there is.
abbrev Transmits : List (Bool × ℕ) → State → List ℕ × State → Type 0
Transmits turns s (out, s') =
    IsReady s'
    × (out ++ stream s' ≡ stream s)
    × (All (λ turn. (turn.0 ≡ true) × (1 ≤ turn.1)) turns
        → length (stream s') ≤ length (stream s) - length turns)
    × (s.out_connection.w_buffer ≡ []
        → IsAwake s
        → All (λ turn. buffer_ksize ≤ turn.1) turns
        → (s'.out_connection.w_buffer ≡ [])
          × (length s'.w_out_messages ≤ length s.w_out_messages - length turns))

-- Every round that may send a byte leaves fewer, until none is left.
fewer :
    (n k rounds : ℕ) {left : ℕ} (s s1 : State)
    → k ≤ length s1.out_connection.w_buffer
    → k ≡ min n (length s1.out_connection.w_buffer)
    → 1 ≤ n
    → stream s1 ≡ stream s
    → (0 < length (stream s) → 0 < length s1.out_connection.w_buffer)
    → left ≤ length (stream (after_send k s1)) - rounds
    → left ≤ length (stream s) - suc rounds
fewer n k rounds s s1 few e one same some less =
    let buf = s1.out_connection.w_buffer in
    let sizes = length-append (drop k buf) (queued s1) in
    let sizes' = length-append buf (queued s1) in
    let size = length-drop k buf in
    let total = ap length same in
    elim (dec_lt 0 (length (stream s))) [
      | yes pos ↦ let more = some pos in omega arith
      | no none ↦ omega arith
    ]

after_send-IsReady : (k : ℕ) (s : State) → IsReady s → IsReady (signal_again (after_send k s))
unfolding signal_again
after_send-IsReady k s ready =
    (omega (arith, length-drop k s.out_connection.w_buffer, ready.0), ready.1)

drained : (buf : List ℕ) (n : ℕ) → length buf ≤ n → drop (min n (length buf)) buf ≡ []
drained buf n enough =
    let k = min n (length buf) in
    let size = length-drop k buf in length-zero (drop k buf) (omega arith)

again : (a b e : Bool) → b ≡ true → (if a || b then true else e) ≡ true
again true b e h = refl
again false b e h = rw h refl

-- The turn that runs, with the state `s1` that the buffer is filled in.
turn-Transmits :
    (signalled : Bool) (n : ℕ) (turns : List (Bool × ℕ)) (s s1 : State) (r : List ℕ × State)
    → let buf = s1.out_connection.w_buffer in
      let k = min n (length buf) in
      Fills s s1
      → Transmits turns (signal_again (after_send k s1)) r
      → Transmits ((signalled, n) ∷ turns) s (take k buf ++ r.0, r.1)
unfolding signal_again
turn-Transmits signalled n turns s s1 (out, s') (ready1, same, some, queue)
      (ready', sum, less, full) =
    let buf = s1.out_connection.w_buffer in
    let k = min n (length buf) in
    let few : k ≤ length buf = omega arith in
    (
      ready',
      append_assoc (take k buf) out (stream s')
          ∙ ap (λ l. take k buf ++ l) sum
          ∙ sym (append_assoc (take k buf) (drop k buf) (queued s1))
          ∙ ap (λ l. l ++ queued s1) (take-append-drop k buf)
          ∙ same,
      (λ all. fewer n k (length turns) s s1 few refl all.0.1 same some (less all.1)),
      λ empty awake all.
          let (w, left) =
            full (drained buf n (omega (arith, ready1.0, all.0)))
              (again (not (is_empty s1.w_in_messages)) (not (is_empty s1.w_out_messages))
                s1.event_new_message)
              all.1 in
          let before = queue empty in (w, omega arith),
    )

-- The turn in which the thread waits.
wait-Transmits :
    (signalled : Bool) (n : ℕ) (turns : List (Bool × ℕ)) (s : State) (r : List ℕ × State)
    → signalled ≡ false
    → s.event_new_message ≡ false
    → Transmits turns s r
    → Transmits ((signalled, n) ∷ turns) s r
wait-Transmits signalled n turns s r quiet unset (ready', sum, less, full) = (
  ready',
  sum,
  (λ all. let woken = all.0.0 in cc),
  λ empty awake all.
      let (w, left) = full empty awake all.1 in
      let none = nothing_left s.w_out_messages s.event_new_message unset awake in (w, omega arith),
)
  where
    nothing_left :
        (queue : List OutMessage) (event : Bool)
        → event ≡ false
        → (not (is_empty queue) ≡ true → event ≡ true)
        → length queue ≡ 0
    nothing_left [] event e awake = refl
    nothing_left (m ∷ queue) event e awake = let there = awake refl in absurd cc

neither : (a b : Bool) → (a || b) ≡ false → (a ≡ false) × (b ≡ false)
neither a b e = (ground arith, ground arith)

transmit-Transmits :
    (turns : List (Bool × ℕ)) (s : State)
    → IsReady s
    → Returns (Transmits turns s) (transmit turns s)
unfolding transmit
transmit-Transmits [] s ready =
    (ready, refl, (λ all. omega arith), λ empty awake all. (empty, omega arith))
transmit-Transmits ((signalled, n) ∷ turns) s ready =
    elim (Bool-cases (signalled || s.event_new_message)) [
      | inl runs ↦
          rw (transmit, runs)
            (>>=-Returns (Fills s) (Transmits ((signalled, n) ∷ turns) s)
              (write_data_to_out_buffer (record s { event_new_message = false })) _
              (write_data_to_out_buffer-Fills (record s { event_new_message = false }) ready)
              (λ s1 fills.
                let buf = s1.out_connection.w_buffer in
                let k = min n (length buf) in
                let few : k ≤ length buf = omega arith in
                rw (write_out_socket-sent s1 k fills.0 few) (
                  >>=-Returns (Transmits turns (signal_again (after_send k s1)))
                    (Transmits ((signalled, n) ∷ turns) s)
                    (transmit turns (signal_again (after_send k s1))) _
                    (transmit-Transmits turns (signal_again (after_send k s1))
                      (after_send-IsReady k s1 fills.0))
                    (λ r rest. turn-Transmits signalled n turns s s1 r fills rest))))
      | inr waits ↦
          let (quiet, unset) = neither signalled s.event_new_message waits in
          rw (transmit, waits)
            (Returns-imp (Transmits turns s) (Transmits ((signalled, n) ∷ turns) s)
              (transmit turns s) (λ r. wait-Transmits signalled n turns s r quiet unset)
              (transmit-Transmits turns s ready))
    ]

-- Whatever number of bytes each `send` takes, and whether or not other threads wake the writing
-- thread before its turns, what it sends to the server, followed by what is still in the send
-- buffer and the frames of the messages still queued, is what there was to send before: no byte is
-- lost, repeated or reordered at the border of two messages. The send buffer and the queued
-- messages are no longer than they can be, and the server's connection stands.
pub transmit_lem :
    (turns : List (Bool × ℕ)) (s : State)
    → IsReady s
    → Returns (λ (out, s'). out ++ stream s' ≡ stream s) (transmit turns s)
transmit_lem turns s ready =
    Returns-imp (Transmits turns s) (λ (out, s'). out ++ stream s' ≡ stream s) (transmit turns s)
      (λ (out, s') sent. sent.1) (transmit-Transmits turns s ready)

nothing_queued :
    (w : List ℕ) (queue : List OutMessage)
    → w ++ frames (map (λ m. m.pdu) queue) ≡ []
    → (w ≡ []) × (queue ≡ [])
unfolding frames frame
nothing_queued [] [] e = (refl, refl)
nothing_queued [] (p ∷ queue) e = absurd (omega (arith, ap length e))
nothing_queued (b ∷ w) queue e = absurd (omega (arith, ap length e))

-- Either other threads wake the writing thread before every turn, every `send` may take a byte, and
-- there are as many turns as bytes; or the event is set, every `send` takes all it is given, and
-- there are as many turns as messages.
abbrev pub Suffices : List (Bool × ℕ) → State → Type 0
Suffices turns s =
    (All (λ turn. (turn.0 ≡ true) × (1 ≤ turn.1)) turns × (length (stream s) ≤ length turns))
    ⊎ ((s.event_new_message ≡ true)
        × All (λ turn. buffer_ksize ≤ turn.1) turns
        × (length s.w_out_messages ≤ length turns))

no_messages : (queue : List OutMessage) → length queue ≤ 0 → queue ≡ []
no_messages [] h = refl
no_messages (m ∷ queue) h = absurd (omega arith)

pub transmit_all :
    (turns : List (Bool × ℕ)) (s : State)
    → IsReady s
    → s.out_connection.w_buffer ≡ []
    → Suffices turns s
    → Returns
        (λ (out, s').
          (out ≡ stream s) × (s'.out_connection.w_buffer ≡ []) × (s'.w_out_messages ≡ []))
        (transmit turns s)
unfolding frames
transmit_all turns s ready empty suffices =
    Returns-imp (Transmits turns s) _ (transmit turns s)
      (λ (out, s') (ready', sum, less, full).
        let done : (s'.out_connection.w_buffer ≡ []) × (s'.w_out_messages ≡ [])
            → (out ≡ stream s) × (s'.out_connection.w_buffer ≡ []) × (s'.w_out_messages ≡ []) =
          λ (w, queue).
            let none : stream s' ≡ [] = rw (w, queue) refl in
            (sym (append-nil out) ∙ ap (λ l. out ++ l) (sym none) ∙ sum, w, queue) in
        elim suffices [
          | inl (woken, enough) ↦
              let left = less woken in
              let none : stream s' ≡ [] = length-zero (stream s') (omega arith) in
              done (nothing_queued s'.out_connection.w_buffer s'.w_out_messages none)
          | inr (set, whole, enough) ↦
              let (w, left) = full empty (λ _. set) whole in
              done (w, no_messages s'.w_out_messages (omega arith))
        ])
      (transmit-Transmits turns s ready)
