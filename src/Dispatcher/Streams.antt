-- ===== src/Dispatcher/Streams.antt =====
-- What each client is still to get, when muxer/dispatcher.c fills the clients' send buffers.
use muxer.Base.{
  ℕ, suc, ◌+◌, ◌≤◌, ◌≡◌, ◌≢◌, refl, arith, true, false, List, [], ◌∷◌, ◌++◌, ◌==◌, length,
  length-zero, map, All, Returns, >>=-Returns, Option, none, some, le→leb, Bool-cases, inl, inr,
  sym, ap, ◌∙◌,
}
use muxer.Pdu.{buffer_ksize}
use muxer.Pdu.Framing.{frame, frames}
use muxer.State.{State, Connection, InMessage}
use muxer.Connection.Removal.{IsDistinct}
use muxer.Dispatcher.Buffers.{
  take_message_for, fill_with, fill_in_buffer, fill_in_buffers, write_data_to_in_buffer,
}
use muxer.Dispatcher.Delivery.{messages_for, Takes, take_message_for-Takes}
use muxer.Dispatcher.Filling.{frame-written}

-- The messages fit the send buffers.
abbrev pub AreSendable : List InMessage → Type 0
AreSendable queue = All (λ m. (2 ≤ length m.pdu) × (length m.pdu + 2 ≤ buffer_ksize)) queue

-- A message that is found, and those that are left.
abbrev pub Found : Option (InMessage × List InMessage) → Type 0
Found none = Unit {0}
Found (some (m, left)) = AreSendable (m ∷ left)

pub take_message_for-Found :
    (socket : ℕ) (queue : List InMessage)
    → AreSendable queue
    → Found (take_message_for socket queue)
unfolding take_message_for
take_message_for-Found socket [] all = tt
take_message_for-Found socket (r ∷ rest) all =
    after (take_message_for socket rest) (take_message_for-Found socket rest all.1)
  where
    after :
        (found : Option (InMessage × List InMessage))
        → Found found
        → Found (elim (r.socket == socket) [
          | true ↦ some (r, rest)
          | false ↦ elim found [ none ↦ none | some (m, left) ↦ some (m, r ∷ left) ]
        ])
    after none h = elim (Bool-cases (r.socket == socket)) [
      | inl hit ↦ rw hit all
      | inr miss ↦ rw miss tt
    ]
    after (some (m, left)) h = elim (Bool-cases (r.socket == socket)) [
      | inl hit ↦ rw hit all
      | inr miss ↦ rw miss (h.0, (all.0, h.1))
    ]

abbrev pub queued_for : ℕ → List InMessage → List ℕ
queued_for socket queue = frames (map (λ m. m.pdu) (messages_for socket queue))

-- The bytes that a client is still to get.
abbrev pub stream_of : List InMessage → Connection → List ℕ
stream_of queue c = c.w_buffer ++ queued_for c.socket queue

-- No client loses a byte, and the client at hand is not left with an empty buffer and a message.
abbrev Fills : Connection → List InMessage → Connection × List InMessage → Type 0
Fills c queue (c', queue') =
    (c'.socket ≡ c.socket)
    × (stream_of queue' c' ≡ stream_of queue c)
    × (length c'.w_buffer ≡ 0 → messages_for c.socket queue' ≡ [])
    × ((other : ℕ) → other ≢ c.socket → messages_for other queue' ≡ messages_for other queue)
    × AreSendable queue'

fill_with-Fills :
    (c : Connection) (queue : List InMessage) (found : Option (InMessage × List InMessage))
    → take_message_for c.socket queue ≡ found
    → c.w_buffer ≡ []
    → AreSendable queue
    → Returns (Fills c queue) (fill_with c found queue)
unfolding fill_with frames frame
fill_with-Fills c queue none e empty all =
    let takes : Takes c.socket (suc c.socket) queue none =
      rw e at
        (take_message_for-Takes c.socket (suc c.socket) queue (λ same. absurd (omega arith))) in
    (refl, refl, (λ z. takes), (λ other ne. refl), all)
fill_with-Fills c queue (some (r, left)) e empty all =
    let takes : Takes c.socket (suc c.socket) queue (some (r, left)) =
      rw e at
        (take_message_for-Takes c.socket (suc c.socket) queue (λ same. absurd (omega arith))) in
    let (fits, all') : AreSendable (r ∷ left) =
      rw e at (take_message_for-Found c.socket queue all) in
    rw (frame-written r.pdu fits.0 fits.1) (
      refl,
      rw (takes.0, empty) refl,
      (λ z. absurd (omega arith)),
      (λ other ne.
          let others : Takes c.socket other queue (some (r, left)) =
            rw e at (take_message_for-Takes c.socket other queue ne) in
          others.1),
      all',
    )

fill_in_buffer-Fills :
    (c : Connection) (queue : List InMessage)
    → length c.w_buffer ≤ buffer_ksize
    → AreSendable queue
    → Returns (Fills c queue) (fill_in_buffer c queue)
unfolding fill_in_buffer
fill_in_buffer-Fills c queue small all =
    rw (le→leb (length c.w_buffer) buffer_ksize small) (elim (Bool-cases (length c.w_buffer == 0)) [
      | inl empty ↦ rw empty (
          fill_with-Fills c queue (take_message_for c.socket queue) refl
            (length-zero c.w_buffer (ground arith)) all)
      | inr full ↦ rw full (refl, refl, (λ z. absurd (ground arith)), (λ other ne. refl), all)
    ])

-- The same of all clients: each one's bytes are the same, and none that has a message left has an
-- empty buffer.
abbrev pub AllFill : List Connection → List InMessage → List Connection × List InMessage → Type 0
AllFill cs queue (cs', queue') =
    (map (stream_of queue') cs' ≡ map (stream_of queue) cs)
    × All (λ c. length c.w_buffer ≡ 0 → messages_for c.socket queue' ≡ []) cs'
    × ((other : ℕ)
        → All (λ c. c.socket ≢ other) cs
        → messages_for other queue' ≡ messages_for other queue)

streams_eq :
    (cs : List Connection) (queue queue' : List InMessage) (socket : ℕ)
    → All (λ c. c.socket ≢ socket) cs
    → ((other : ℕ) → other ≢ socket → messages_for other queue' ≡ messages_for other queue)
    → map (stream_of queue') cs ≡ map (stream_of queue) cs
streams_eq [] queue queue' socket free same = refl
streams_eq (c ∷ cs) queue queue' socket free same =
    rw (same c.socket free.0, streams_eq cs queue queue' socket free.1 same) refl

fill_in_buffers-AllFill :
    (cs : List Connection) (queue : List InMessage)
    → IsDistinct cs
    → All (λ c. length c.w_buffer ≤ buffer_ksize) cs
    → AreSendable queue
    → Returns (AllFill cs queue) (fill_in_buffers cs queue)
unfolding fill_in_buffers
fill_in_buffers-AllFill [] queue distinct small all = (refl, tt, λ other free. refl)
fill_in_buffers-AllFill (c ∷ cs) queue distinct small all =
    >>=-Returns (Fills c queue) (AllFill (c ∷ cs) queue) (fill_in_buffer c queue) _
      (fill_in_buffer-Fills c queue small.0 all)
      (λ (c', queue1) (same, stream, done, others, all1).
        >>=-Returns (AllFill cs queue1) (AllFill (c ∷ cs) queue) (fill_in_buffers cs queue1) _
          (fill_in_buffers-AllFill cs queue1 distinct.1 small.1 all1)
          (λ (cs', queue2) (streams, done', others').
            let own : messages_for c.socket queue2 ≡ messages_for c.socket queue1 =
              others' c.socket distinct.0 in
            let at_own : (q : List InMessage) → messages_for c'.socket q ≡ messages_for c.socket q =
              λ q. ap (λ k. messages_for k q) same in
            let head : stream_of queue2 c' ≡ stream_of queue c =
              ap (λ ms. c'.w_buffer ++ frames (map (λ m. m.pdu) ms))
                (at_own queue2 ∙ own ∙ sym (at_own queue1))
              ∙ stream in
            let tail : map (stream_of queue2) cs' ≡ map (stream_of queue) cs =
              streams ∙ streams_eq cs queue queue1 c.socket distinct.0 others in
            (
              λ i. head i ∷ tail i,
              ((λ z. at_own queue2 ∙ own ∙ done z), done'),
              λ other free. others' other free.1 ∙ others other (λ e. free.0 (sym e)),
            )))

-- If no two clients share a socket, no send buffer holds more than its size and every queued
-- message fits one, filling the send buffers changes no client's stream, which is what its send
-- buffer holds and the frames of the messages queued for it in order; and no client with a queued
-- message is left with an empty send buffer.
pub write_data_to_in_buffer_lem :
    (s : State)
    → IsDistinct s.connections
    → All (λ c. length c.w_buffer ≤ buffer_ksize) s.connections
    → AreSendable s.w_in_messages
    → Returns
        (λ s'.
          (map (stream_of s'.w_in_messages) s'.connections
            ≡ map (stream_of s.w_in_messages) s.connections)
          × All
              (λ c. length c.w_buffer ≡ 0 → messages_for c.socket s'.w_in_messages ≡ [])
              s'.connections)
        (write_data_to_in_buffer s)
unfolding write_data_to_in_buffer
write_data_to_in_buffer_lem s distinct small all =
    >>=-Returns (AllFill s.connections s.w_in_messages) _
      (fill_in_buffers s.connections s.w_in_messages) _
      (fill_in_buffers-AllFill s.connections s.w_in_messages distinct small all)
      (λ (cs, queue) (streams, done, others). (streams, done))
