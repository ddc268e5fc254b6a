-- ===== src/Peers.antt =====
-- test_server/server.c and test_client/client.c: what the programs for trying the muxer out do with
-- the bytes that they receive. What `recv` and `send` come back with are arguments.
pub mod Serving
pub mod Mains
pub mod Ledger
pub mod Talking
pub mod Closing
pub mod Client
pub mod Server
pub mod Through
use muxer.Base.{
  ℕ, zero, suc, ◌-◌, ◌+◌, ◌==◌, Bool, true, false, List, [], ◌∷◌, ◌++◌, if◌then◌else◌, length,
  replicate, Outcome, ok, ◌>>=◌, pos, ℤ,
}
use muxer.Pdu.{Pdu, read_pdus_from_recv_buffer, write_pdu_to_send_buffer}
use muxer.State.{InputType, OutputType}
use muxer.Protocol.{Codec, encode_in_pdu, encode_out_pdu, decode_in_pdu, decode_out_pdu}
use muxer.Dispatcher.Buffers.{Received, received, recv_error}

abbrev pub default_buflen : ℕ
default_buflen = 512

-- What the programs do that others can see: winsock set up and cleaned up, the list of addresses
-- got and freed, sockets opened and closed, the error code that the codec came back with, what was
-- sent, the line that is printed for a message (its invoke id and its command), and `SD_SEND`.
pub data Call : Type 0 where
  started : Call
  cleaned_up : Call
  resolved : Call
  freed : Call
  opened : ℕ → Call
  closed : ℕ → Call
  coded : ℕ → Call
  sent : List ℕ → Call
  printed : ℤ → List ℕ → Call
  shut : ℕ → Call

-- How a step leaves the main loop: it goes on, goes to the shutdown, closes the socket and returns 1,
-- or returns 1 at once.
pub data Next : Type 0 where
  goes_on : Next
  leaves : Next
  fails : Next
  gives_up : Next

abbrev pub Step : Type 0
Step = List Call × Next

-- The rest is done only if the step goes on.
abbrev pub continue_with : Step → Outcome Step → Outcome Step
continue_with (calls, goes_on) rest = do (more, next) ← rest; ok (calls ++ more, next)
continue_with (calls, leaves) rest = ok (calls, leaves)
continue_with (calls, fails) rest = ok (calls, fails)
continue_with (calls, gives_up) rest = ok (calls, gives_up)

-- The zeroed buffer with what `recv` put to its front.
unfoldable pub recvbuf : List ℕ → List ℕ
recvbuf bytes = bytes ++ replicate (default_buflen - length bytes) 0

-- The loop over the PDUs in the buffer.
unfoldable pub each_pdu : (ℕ → Pdu → Outcome Step) → ℕ → List Pdu → Outcome Step
each_pdu handle n [] = ok ([], goes_on)
each_pdu handle n (p ∷ rest) = do
  step ← handle n p
  continue_with step (each_pdu handle (suc n) rest)

-- What follows a `recv`; `at_end` is for a connection that the peer has closed.
unfoldable pub receive_pdus : Next → (ℕ → Pdu → Outcome Step) → Received → Outcome Step
unfolding each_pdu recvbuf
receive_pdus at_end handle (received []) = ok ([], at_end)
receive_pdus at_end handle (received (b ∷ bytes)) = do
  (pdus, _) ← read_pdus_from_recv_buffer default_buflen (recvbuf (b ∷ bytes))
  each_pdu handle 0 pdus
receive_pdus at_end handle (recv_error err) = ok ([], fails)

-- An encoded message is put into the send buffer and sent; `send` says whether that succeeds.
unfoldable pub send_encoded : Bool → ℕ × Pdu → Outcome Step
send_encoded send (send_encode_err, send_pdu) =
    if send_encode_err == 0
    then (do
      sendbuf ← write_pdu_to_send_buffer send_pdu default_buflen
      ok (if send then (coded 0 ∷ sent sendbuf ∷ [], goes_on) else (coded 0 ∷ [], fails)))
    else ok (coded send_encode_err ∷ [], gives_up)

-- "this is a test request", "this is a test response" and "ok", with the closing NUL.
abbrev pub test_request : List ℕ
test_request =
    116 ∷ 104 ∷ 105 ∷ 115 ∷ 32 ∷ 105 ∷ 115 ∷ 32 ∷ 97 ∷ 32 ∷ 116 ∷ 101 ∷ 115 ∷ 116 ∷ 32 ∷ 114 ∷ 101
    ∷ 113 ∷ 117 ∷ 101 ∷ 115 ∷ 116 ∷ 0 ∷ []

abbrev pub test_response : List ℕ
test_response =
    116 ∷ 104 ∷ 105 ∷ 115 ∷ 32 ∷ 105 ∷ 115 ∷ 32 ∷ 97 ∷ 32 ∷ 116 ∷ 101 ∷ 115 ∷ 116 ∷ 32 ∷ 114 ∷ 101
    ∷ 115 ∷ 112 ∷ 111 ∷ 110 ∷ 115 ∷ 101 ∷ 0 ∷ []

abbrev pub test_result : List ℕ
test_result = 111 ∷ 107 ∷ 0 ∷ []

module _ (codec : Codec) where
  -- The server's `sendType` for a request.
  unfoldable pub response : InputType → OutputType
  response request = record {
    invokeid = request.invokeid;
    command = test_response;
    result = test_result;
  }

  -- What the server does with a PDU.
  unfoldable pub answer_pdu : Bool → Pdu → Outcome Step
  unfolding send_encoded response
  answer_pdu send p =
      let (recv_encode_err, recv_type) = decode_in_pdu codec p in
      if recv_encode_err == 0
      then continue_with (coded 0 ∷ printed recv_type.invokeid recv_type.command ∷ [], goes_on)
          (send_encoded send (encode_out_pdu codec (response recv_type)))
      else ok (coded recv_encode_err ∷ [], gives_up)

  -- One round of the server's loop. `send n` says whether the `send` after `n` others succeeds.
  unfoldable pub serve_round : (ℕ → Bool) → Received → Outcome Step
  unfolding receive_pdus answer_pdu
  serve_round send got = receive_pdus leaves (λ n. answer_pdu (send n)) got

  -- The client's request under an invoke id.
  unfoldable pub ask : ℕ → Bool → Outcome Step
  unfolding send_encoded
  ask send_invokeid send =
      send_encoded send
        (encode_in_pdu codec (record { invokeid = pos send_invokeid; command = test_request }))

  -- What the client does with a PDU.
  unfoldable pub print_answer : Pdu → Outcome Step
  print_answer p =
      let (recv_encode_err, recv_type) = decode_out_pdu codec p in
      ok (
        if recv_encode_err == 0
        then (coded 0 ∷ printed recv_type.invokeid recv_type.command ∷ [], goes_on)
        else (coded recv_encode_err ∷ [], gives_up))

  -- One round of the client's loop, under an invoke id.
  unfoldable pub client_round : ℕ → Bool → Received → Outcome Step
  unfolding ask receive_pdus print_answer
  client_round send_invokeid send got = do
    asked ← ask send_invokeid send
    continue_with asked (receive_pdus fails (λ n. print_answer) got)
