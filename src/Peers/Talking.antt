-- ===== src/Peers/Talking.antt =====
-- The steps of the test programs' main loops.
use muxer.Base.{
  ℕ, suc, ◌==◌, ◌≡◌, refl, sym, Bool, true, false, List, [], ◌∷◌, if◌then◌else◌, Outcome, ok, Ends,
  >>=-Ends, Bool-cases, inl, inr, pos, arith, length, leb, check-Ends, ◌+◌,
}
use muxer.Pdu.{Pdu, read_pdus_from_recv_buffer, write_pdu_to_send_buffer, read_loop, header_of}
use muxer.Dispatcher.Endings.{Anything, with_header-Ends, read_loop-Ends}
use muxer.State.{InputType}
use muxer.Protocol.{Codec, encode_in_pdu, encode_out_pdu, decode_in_pdu, decode_out_pdu}
use muxer.Dispatcher.Buffers.{Received, received, recv_error}
use muxer.Peers.{
  coded, sent, printed, Step, Next, goes_on, leaves, fails, gives_up, each_pdu, receive_pdus,
  recvbuf, send_encoded, answer_pdu, serve_round, ask, print_answer, client_round, test_request,
  response,
}
use muxer.Peers.Ledger.{gave_up, IsTalk, IsOver, continue_with-IsTalk, continue_with-IsOver}
use muxer.Peers.Mains.{Exchange, client_loop}

read_pdus-Ends : (size : ℕ) (buf : List ℕ) → Ends Anything (read_pdus_from_recv_buffer size buf)
unfolding read_pdus_from_recv_buffer
read_pdus-Ends size buf = check-Ends Anything (leb (length buf) size) _ (
    with_header-Ends (read_loop (suc (length buf)) size) size buf
      (read_loop-Ends (suc (length buf)) size (header_of buf) buf (omega arith)))

write_pdu-Ends : (pdu : Pdu) (size : ℕ) → Ends Anything (write_pdu_to_send_buffer pdu size)
unfolding write_pdu_to_send_buffer
write_pdu-Ends pdu size =
    check-Ends Anything (leb (2 + length pdu) size) _
      (check-Ends Anything (leb 2 (length pdu)) _ tt)

send_part-IsTalk :
    (send : Bool) (sendbuf : List ℕ)
    → IsTalk (if send then (coded 0 ∷ sent sendbuf ∷ [], goes_on) else (coded 0 ∷ [], fails))
send_part-IsTalk true sendbuf = ((λ h. refl), refl)
send_part-IsTalk false sendbuf = ((λ h. refl), refl)

-- A coding step that failed is the end of the program.
coding-IsTalk :
    (err : ℕ) (o : Outcome Step)
    → Ends IsTalk o
    → Ends IsTalk (if err == 0 then o else ok (coded err ∷ [], gives_up))
coding-IsTalk err o h = elim (Bool-cases (err == 0)) [
  | inl fine ↦ rw fine h
  | inr bad ↦ rw bad ((λ k. refl), rw bad refl)
]

send_encoded-IsTalk : (send : Bool) (coding : ℕ × Pdu) → Ends IsTalk (send_encoded send coding)
unfolding send_encoded
send_encoded-IsTalk send (err, pdu) = coding-IsTalk err _ (
    >>=-Ends Anything IsTalk (write_pdu_to_send_buffer pdu 512) _ (write_pdu-Ends pdu 512)
      (λ sendbuf h. send_part-IsTalk send sendbuf))

each_pdu-IsTalk :
    (handle : ℕ → Pdu → Outcome Step)
    → ((n : ℕ) (p : Pdu) → Ends IsTalk (handle n p))
    → (n : ℕ) (ps : List Pdu) → Ends IsTalk (each_pdu handle n ps)
unfolding each_pdu
each_pdu-IsTalk handle h n [] = ((λ k. refl), refl)
each_pdu-IsTalk handle h n (p ∷ ps) =
    >>=-Ends IsTalk IsTalk (handle n p) _ (h n p)
      (λ step talk. continue_with-IsTalk step _ talk (each_pdu-IsTalk handle h (suc n) ps))

receive_pdus-IsTalk :
    (at_end : Next) (handle : ℕ → Pdu → Outcome Step)
    → gave_up at_end ≡ false
    → ((n : ℕ) (p : Pdu) → Ends IsTalk (handle n p))
    → (got : Received) → Ends IsTalk (receive_pdus at_end handle got)
unfolding receive_pdus
receive_pdus-IsTalk at_end handle stays h (received []) = ((λ k. refl), sym stays)
receive_pdus-IsTalk at_end handle stays h (received (b ∷ bytes)) =
    >>=-Ends Anything IsTalk (read_pdus_from_recv_buffer 512 (recvbuf (b ∷ bytes))) _
      (read_pdus-Ends 512 (recvbuf (b ∷ bytes))) (λ (pdus, left) k. each_pdu-IsTalk handle h 0 pdus)
receive_pdus-IsTalk at_end handle stays h (recv_error err) = ((λ k. refl), refl)

module _ (codec : Codec) where
  answer_pdu-IsTalk : (send : Bool) (p : Pdu) → Ends IsTalk (answer_pdu codec send p)
  unfolding answer_pdu
  answer_pdu-IsTalk send p =
      let (err, request) = decode_in_pdu codec p in
      coding-IsTalk err _ (
        continue_with-IsTalk (coded 0 ∷ printed request.invokeid request.command ∷ [], goes_on) _
          ((λ h. refl), refl)
          (send_encoded-IsTalk send (encode_out_pdu codec (response codec request))))

  print_answer-IsTalk : (p : Pdu) → Ends IsTalk (print_answer codec p)
  unfolding print_answer
  print_answer-IsTalk p = elim (Bool-cases ((decode_out_pdu codec p).0 == 0)) [
    | inl fine ↦ rw fine ((λ h. refl), refl)
    | inr bad ↦ rw bad ((λ h. refl), rw bad refl)
  ]

  pub serve_round-IsTalk :
      (send : ℕ → Bool) (got : Received) → Ends IsTalk (serve_round codec send got)
  unfolding serve_round
  serve_round-IsTalk send got =
      receive_pdus-IsTalk leaves (λ n. answer_pdu codec (send n)) refl
        (λ n. answer_pdu-IsTalk (send n)) got

  client_round-IsTalk :
      (id : ℕ) (send : Bool) (got : Received) → Ends IsTalk (client_round codec id send got)
  unfolding client_round ask
  client_round-IsTalk id send got =
      let request : InputType = record { invokeid = pos id; command = test_request } in
      >>=-Ends IsTalk IsTalk (send_encoded send (encode_in_pdu codec request)) _
        (send_encoded-IsTalk send (encode_in_pdu codec request))
        (λ step talk.
          continue_with-IsTalk step _ talk (
            receive_pdus-IsTalk fails (λ n. print_answer codec) refl (λ n. print_answer-IsTalk)
              got))

  pub client_loop-IsOver :
      (id : ℕ) (now : Exchange) (more : List Exchange) → Ends IsOver (client_loop codec id now more)
  unfolding client_loop
  client_loop-IsOver id now [] =
      >>=-Ends IsTalk IsOver (client_round codec (suc id) now.send now.recv) _
        (client_round-IsTalk (suc id) now.send now.recv)
        (λ step talk. continue_with-IsOver step _ talk ((λ h. refl), refl))
  client_loop-IsOver id now (next ∷ later) =
      >>=-Ends IsTalk IsOver (client_round codec (suc id) now.send now.recv) _
        (client_round-IsTalk (suc id) now.send now.recv)
        (λ step talk. continue_with-IsOver step _ talk (client_loop-IsOver (suc id) next later))
