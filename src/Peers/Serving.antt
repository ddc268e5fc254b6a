-- ===== src/Peers/Serving.antt =====
-- What the test programs make of framed PDUs that one `recv` brings, and the test server's answers.
use muxer.Base.{
  ℕ, zero, suc, ◌+◌, ◌-◌, ◌/◌, ◌%◌, append-nil, ◌≤◌, ◌≡◌, refl, arith, true, List, [], ◌∷◌, ◌++◌,
  length, length-append, replicate, length-replicate, All, Outcome, ok, inl, inr, le→leb,
}
use muxer.Pdu.{Pdu, header_of}
use muxer.Pdu.Framing.{frame, IsPartial}
use muxer.Pdu.Writing.{write_all, read-write_all, write_lem}
use muxer.State.{InputType}
use muxer.Protocol.{Codec, decode_in_pdu, encode_out_pdu}
use muxer.Dispatcher.Buffers.{received}
use muxer.Peers.{
  Call, coded, sent, printed, Next, goes_on, Step, recvbuf, each_pdu, receive_pdus, response,
  send_encoded, answer_pdu,
}

room_left : (l : List ℕ) → length l ≤ 512 → length (l ++ replicate (512 - length l) 0) ≤ 512
room_left l h =
    let zeros = length-replicate {A = ℕ} (512 - length l) 0 in
    omega (arith, length-append l (replicate (512 - length l) 0))

zeros-IsPartial : (n : ℕ) → IsPartial 512 (replicate n 0)
unfolding header_of
zeros-IsPartial zero = inl (omega arith)
zeros-IsPartial (suc zero) = inl (omega arith)
zeros-IsPartial (suc (suc n)) = inr (omega arith, inl refl)

-- The calls for each of the PDUs, in order.
abbrev pub all_calls : (Pdu → List Call) → List Pdu → List Call
all_calls f [] = []
all_calls f (p ∷ ps) = f p ++ all_calls f ps

module _ (handle : ℕ → Pdu → Outcome Step) (f : Pdu → List Call) where
  -- The PDU is dealt with by the calls `f p`, and the loop goes on.
  abbrev pub IsHandled : Pdu → Type 0
  IsHandled p = (n : ℕ) → handle n p ≡ ok (f p, goes_on)

  each_pdu_lem :
      (n : ℕ) (ps : List Pdu)
      → All IsHandled ps
      → each_pdu handle n ps ≡ ok (all_calls f ps, goes_on)
  unfolding each_pdu
  each_pdu_lem n [] h = refl
  each_pdu_lem n (p ∷ ps) h = rw (h.0 n, each_pdu_lem (suc n) ps h.1) refl

  -- One `recv` that brings framed PDUs.
  pub receive_pdus_lem :
      (at_end : Next) (ps : List Pdu) (b : ℕ) (bytes : List ℕ)
      → write_all 512 ps ≡ ok (b ∷ bytes)
      → length (b ∷ bytes) ≤ 512
      → All IsHandled ps
      → receive_pdus at_end handle (received (b ∷ bytes)) ≡ ok (all_calls f ps, goes_on)
  unfolding receive_pdus recvbuf
  receive_pdus_lem at_end ps b bytes e room h =
      rw
        (read-write_all 512 ps (b ∷ bytes) (replicate (512 - length (b ∷ bytes)) 0) (omega arith) e
          (zeros-IsPartial (512 - length (b ∷ bytes))) (room_left (b ∷ bytes) room))
        (each_pdu_lem 0 ps h)

write_all_one :
    (p : Pdu) → 2 ≤ length p → length p + 2 ≤ 512 → write_all 512 (p ∷ []) ≡ ok (frame p)
unfolding write_all frame
write_all_one p many room =
    rw
      (
        write_lem p 512 (omega arith),
        le→leb 2 (length p) many,
        le→leb (2 + length p) 512 (omega arith),
        append-nil p,
      )
      refl

-- One PDU of at least two bytes that fits the buffer.
pub receive_pdu_lem :
    (at_end : Next) (handle : ℕ → Pdu → Outcome Step) (f : Pdu → List Call) (p : Pdu)
    → 2 ≤ length p
    → length p + 2 ≤ 512
    → ((n : ℕ) → handle n p ≡ ok (f p, goes_on))
    → receive_pdus at_end handle (received (frame p)) ≡ ok (f p, goes_on)
unfolding frame
receive_pdu_lem at_end handle f p many room h = rw (← append-nil (f p)) (
    receive_pdus_lem handle f at_end (p ∷ []) (length p / 256) ((length p % 256) ∷ p)
      (write_all_one p many room) (omega arith) (h, tt))

-- A message that was encoded without error into at least two bytes that fit the buffer is sent.
pub send_encoded_lem :
    (err : ℕ) (pdu : Pdu)
    → err ≡ 0
    → 2 ≤ length pdu
    → length pdu + 2 ≤ 512
    → send_encoded true (err, pdu) ≡ ok (coded 0 ∷ sent (frame pdu) ∷ [], goes_on)
unfolding send_encoded
send_encoded_lem err pdu none many room =
    rw
      (
        none,
        write_lem pdu 512 (omega arith),
        le→leb 2 (length pdu) many,
        le→leb (2 + length pdu) 512 (omega arith),
      )
      refl

module _ (codec : Codec) where
  -- The answer to a request, with its invoke id.
  abbrev pub answer_of : Pdu → ℕ × Pdu
  answer_of p = encode_out_pdu codec (response codec (decode_in_pdu codec p).1)

  -- A request that can be decoded, with an answer that can be encoded and fits the buffer.
  abbrev pub IsServed : Pdu → Type 0
  IsServed p =
      ((decode_in_pdu codec p).0 ≡ 0)
      × ((answer_of p).0 ≡ 0)
      × (2 ≤ length (answer_of p).1)
      × (length (answer_of p).1 + 2 ≤ 512)

  -- What the server does for a request that is served: it decodes it, prints it, and encodes and
  -- sends the answer.
  abbrev pub served : Pdu → List Call
  served p =
      let request = (decode_in_pdu codec p).1 in
      coded 0
      ∷ printed request.invokeid request.command
      ∷ coded 0
      ∷ sent (frame (answer_of p).1)
      ∷ []

  pub answer_decoded :
      (p : Pdu) (x : InputType)
      → decode_in_pdu codec p ≡ (0, x)
      → (encode_out_pdu codec (response codec x)).0 ≡ 0
      → 2 ≤ length (encode_out_pdu codec (response codec x)).1
      → length (encode_out_pdu codec (response codec x)).1 + 2 ≤ 512
      → answer_pdu codec true p
        ≡ ok (
          coded 0
              ∷ printed x.invokeid x.command
              ∷ coded 0
              ∷ sent (frame (encode_out_pdu codec (response codec x)).1)
              ∷ [],
          goes_on,
        )
  unfolding answer_pdu
  answer_decoded p x decoded none many room =
      let (err, pdu) = encode_out_pdu codec (response codec x) in
      rw (decoded, send_encoded_lem err pdu none many room) refl
