-- ===== src/Tests/Rounds.antt =====
-- The loops over the clients in muxer/dispatcher.c where two of three are dropped.
use muxer.Base.{true, Returns, ℕ, ◌≡◌, ◌≢◌, refl, [], ◌∷◌, ok, out_of_fuel}
use muxer.Pdu.{read_pdus_from_recv_buffer}
use muxer.Mapping.{remove_all_mappings_for}
use muxer.State.{State, Connection, initial_state, no_address}
use muxer.Dispatcher.Buffers.{Received, received, Sent, send_error}
use muxer.Dispatcher.Sockets.{read_in_socket, write_in_socket}
use muxer.Dispatcher.Shutdowns.{Ending, shut_each, read_and_shut, read_and_shut-Ends}
use muxer.Winsock.{send_closed, socket_closed}

abbrev client : ℕ → Connection
client socket = record {
  socket = socket;
  ip_address = no_address;
  r_buffer = [];
  w_buffer = 0 ∷ [];
}

abbrev three_clients : State
three_clients = record initial_state { connections = client 5 ∷ client 6 ∷ client 7 ∷ [] }

-- Nothing more comes from any client.
abbrev closed : ℕ → Received
closed socket = received []

abbrev failing : ℕ → Sent
failing socket = send_error 10054

read_two_closed :
    read_in_socket closed (6 ∷ 7 ∷ []) [] three_clients
    ≡ ok (record three_clients { connections = client 5 ∷ []; shut_down = 6 ∷ 7 ∷ [] })
unfolding read_in_socket read_pdus_from_recv_buffer remove_all_mappings_for
read_two_closed = refl

write_two_failing :
    write_in_socket failing (6 ∷ []) (7 ∷ []) three_clients
    ≡ ok (record three_clients { connections = client 5 ∷ []; shut_down = 6 ∷ 7 ∷ [] })
unfolding write_in_socket remove_all_mappings_for
write_two_failing = refl

-- Client 6 sends two more bytes before it closes.
abbrev ending : ℕ → Ending
ending socket = record {
  shutdown_ok = true;
  extra = received (1 ∷ 2 ∷ []) ∷ received [] ∷ [];
  close_ok = true;
}

both_closed :
    Returns
      (λ (s', calls).
        calls ≡ send_closed 6 ∷ socket_closed 6 ∷ send_closed 7 ∷ socket_closed 7 ∷ [])
      (read_and_shut closed ending (6 ∷ 7 ∷ []) [] three_clients)
unfolding read_and_shut read_in_socket read_pdus_from_recv_buffer remove_all_mappings_for
both_closed = refl

-- A peer that sends on and on keeps the reading thread.
keeps_sending :
    shut_each (λ socket. record (ending socket) { extra = received (1 ∷ []) ∷ [] }) (6 ∷ [])
    ≡ out_of_fuel
unfolding shut_each
keeps_sending = refl

read_and_shut-Ends_example : read_and_shut closed ending (6 ∷ 7 ∷ []) [] three_clients ≢ out_of_fuel
read_and_shut-Ends_example =
    read_and_shut-Ends closed ending (6 ∷ 7 ∷ []) [] three_clients (λ socket. tt)
