-- ===== src/Tests/Peers.antt =====
-- The test programs: a round of the server, whole runs of both, and a request through the muxer.
use muxer.Base.{ℕ, ◌≡◌, refl, true, List, [], ◌∷◌, ◌++◌, some, Ends, ok, pos}
use muxer.Pdu.{write_pdu_to_send_buffer, read_pdus_from_recv_buffer, header_of}
use muxer.State.{InputType, OutputType, State, initial_state}
use muxer.Protocol.{Codec, decode_in_pdu, encode_out_pdu, encode_in_pdu, decode_out_pdu}
use muxer.Dispatcher.Buffers.{received}
use muxer.Peers.{
  Call, started, cleaned_up, resolved, freed, opened, closed, coded, sent, printed, shut,
  test_request, test_response, test_result,
}
use muxer.Peers.Ledger.{nothing}
use muxer.Peers.Mains.{refused, connected, ClientRun, ServerRun, client_main, server_main}
use muxer.Peers.Client.{Settled, client_main-Settled}
use muxer.Peers.Server.{Released, server_main-Released}
use muxer.Peers.Through.{asked_pdu}
use muxer.Tests.Protocols.{codec}
use muxer.Tests.Runtime.{runtime}

-- The frame of 28 bytes: the id, the response and the result, each with its NUL.
abbrev answer : ℕ → List ℕ
answer id = 0 ∷ 28 ∷ id ∷ test_response ++ test_result

-- What the server does for a request with the command 65.
abbrev served_calls : ℕ → List Call
served_calls id = coded 0 ∷ printed (pos id) (65 ∷ []) ∷ coded 0 ∷ sent (answer id) ∷ []

-- The first address refuses, the second is connected to; one round, and the peer closes.
abbrev answered_run : ClientRun
answered_run = record {
  startup = 0;
  targets = some (refused 3 ∷ connected 4 ∷ []);
  first = record { send = true; recv = received (0 ∷ 3 ∷ 1 ∷ 65 ∷ 66 ∷ []) };
  more = [];
  shutdown_ok = true;
  remaining = received (5 ∷ []) ∷ received [] ∷ [];
}

client_answered :
    client_main codec answered_run
    ≡ ok (
      started
          ∷ resolved
          ∷ opened 3
          ∷ closed 3
          ∷ opened 4
          ∷ freed
          ∷ coded 0
          ∷ sent (0 ∷ 24 ∷ 1 ∷ test_request)
          ∷ coded 0
          ∷ printed (pos 1) (65 ∷ [])
          ∷ shut 4
          ∷ closed 4
          ∷ cleaned_up
          ∷ [],
      0,
    )
unfolding client_main encode_in_pdu decode_out_pdu write_pdu_to_send_buffer
    read_pdus_from_recv_buffer header_of
client_answered = refl

-- The client cannot decode an answer.
abbrev strict_codec : Codec
strict_codec = record codec {
  decode_output = λ bytes. (1, record { invokeid = pos 0; command = []; result = [] });
}

-- The socket stays open then, and winsock in use.

client_undecoded :
    client_main strict_codec answered_run
    ≡ ok (
      started
          ∷ resolved
          ∷ opened 3
          ∷ closed 3
          ∷ opened 4
          ∷ freed
          ∷ coded 0
          ∷ sent (0 ∷ 24 ∷ 1 ∷ test_request)
          ∷ coded 1
          ∷ [],
      1,
    )
unfolding client_main encode_in_pdu decode_out_pdu write_pdu_to_send_buffer
    read_pdus_from_recv_buffer header_of
client_undecoded = refl

client_main-Settled_example :
    Ends (Settled nothing (refused 3 ∷ connected 4 ∷ [])) (client_main strict_codec answered_run)
client_main-Settled_example = client_main-Settled strict_codec answered_run tt (tt, (refl, tt))

-- A request is answered, then the client closes.
abbrev serving_run : ServerRun
serving_run = record {
  startup = 0;
  resolved_ok = true;
  listen_socket = some 3;
  bind_ok = true;
  listen_ok = true;
  client_socket = some 4;
  rounds = (received (0 ∷ 2 ∷ 7 ∷ 65 ∷ []), (λ k. true)) ∷ (received [], (λ k. true)) ∷ [];
  shutdown_ok = true;
}

server_served :
    server_main codec serving_run
    ≡ ok (
      started
          ∷ resolved
          ∷ opened 3
          ∷ freed
          ∷ opened 4
          ∷ closed 3
          ∷ (served_calls 7 ++ shut 4 ∷ closed 4 ∷ cleaned_up ∷ []),
      0,
    )
unfolding server_main decode_in_pdu encode_out_pdu write_pdu_to_send_buffer
    read_pdus_from_recv_buffer header_of
server_served = refl

server_main-Released_example : Ends (Released nothing (some 4)) (server_main codec serving_run)
server_main-Released_example = server_main-Released codec serving_run tt refl

abbrev old_input : InputType
old_input = record { invokeid = pos 0; command = [] }

abbrev old_output : OutputType
old_output = record { invokeid = pos 0; command = []; result = [] }

-- The client on socket 5 has asked under its id 7.
abbrev asking : State
asking = record initial_state {
  r_in_messages = record { socket = 5; pdu = asked_pdu runtime old_input old_output (pos 7) } ∷ [];
}
