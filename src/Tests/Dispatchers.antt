-- ===== src/Tests/Dispatchers.antt =====
-- muxer/dispatcher.c: partial sends, the choice of the next message, the purge and the cleanup.
use muxer.Base.{ℕ, ◌≡◌, true, [], ◌∷◌, ok}
use muxer.State.{State, Connection, InMessage, initial_state, no_address}
use muxer.Dispatcher.Threads.{cleanup}
use muxer.Dispatcher.Cleanup.{cleanup_lem}

abbrev sending : Connection
sending = record {
  socket = 5;
  ip_address = no_address;
  r_buffer = [];
  w_buffer = 0 ∷ 4 ∷ 7 ∷ 65 ∷ [];
}

abbrev message : ℕ → ℕ → InMessage
message socket byte = record { socket = socket; pdu = 7 ∷ byte ∷ [] }

-- Client 5 is connected and its buffer is full; client 9 has gone.
abbrev busy : State
busy = record initial_state {
  connections = sending ∷ [];
  socket_to_recv_unicast_msg =
      record { socket = 5; invokeid_original = 3; invokeid_generated = 1 }
      ∷ record { socket = 9; invokeid_original = 4; invokeid_generated = 2 }
      ∷ [];
  w_in_messages = message 9 1 ∷ message 5 2 ∷ message 9 3 ∷ message 5 4 ∷ [];
  is_out_connection_ok = true;
}

cleanup_lem_example :
    cleanup busy
    ≡ ok (record initial_state {
      socket_to_recv_unicast_msg =
          record { socket = 9; invokeid_original = 4; invokeid_generated = 2 } ∷ [];
      shut_down = 5 ∷ [];
    })
cleanup_lem_example = cleanup_lem busy (tt, tt)
