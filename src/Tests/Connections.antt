-- ===== src/Tests/Connections.antt =====
-- muxer/connection.c and muxer/mapping.c with two clients.
use muxer.Base.{ℕ, ◌≡◌, [], ◌∷◌, arith, ok}
use muxer.State.{State, Connection, Mapping, initial_state, no_address}
use muxer.Connection.{remove_connection}
use muxer.Connection.Removal.{IsDistinct, remove_connection_lem}

abbrev client : ℕ → Connection
client socket = record { socket = socket; ip_address = no_address; r_buffer = []; w_buffer = [] }

abbrev mapping : ℕ → ℕ → Mapping
mapping socket id = record { socket = socket; invokeid_original = 3; invokeid_generated = id }

-- Clients 5 and 6 are connected; client 9 is gone, but a request of its is still pending.
abbrev two_clients : State
two_clients = record initial_state {
  connections = client 5 ∷ client 6 ∷ [];
  socket_to_recv_unicast_msg = mapping 5 1 ∷ mapping 9 2 ∷ mapping 6 3 ∷ [];
}

two_clients-IsDistinct : IsDistinct two_clients.connections
two_clients-IsDistinct = omega arith

remove_connection_lem_example :
    remove_connection 5 two_clients
    ≡ ok (record two_clients {
      connections = client 6 ∷ [];
      socket_to_recv_unicast_msg = mapping 9 2 ∷ mapping 6 3 ∷ [];
    })
remove_connection_lem_example = remove_connection_lem 5 two_clients two_clients-IsDistinct
