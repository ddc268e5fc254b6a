-- ===== src/System/Runs.antt =====
-- All runs of the threads of muxer/dispatcher.c.
use muxer.Base.{
  ◌≡◌, refl, arith, Bool, true, false, Outcome, ok, Returns, Returns-ok, if◌then◌else◌, inl, abort,
  out_of_fuel,
}
use muxer.State.{State, initial_state}
use muxer.Protocol.{Codec}
use muxer.System.{
  Event, accept_client, read_server, read_clients, reply, request, connect_server, fill_server,
  purge_messages, fill_clients, write_server, write_clients, clean_up, run, Allowed, WellFormed,
  Reach, start, step,
}
use muxer.System.Readers.{
  read_in_socket-Returns, read_out_socket-Returns, read_listener_socket-Returns,
}
use muxer.System.Writing.{write_data_to_out_buffer-Returns, free_w_in_messages-Returns}
use muxer.System.Writers.{
  write_data_to_in_buffer-Returns, write_in_socket-Returns, write_out_socket-Returns,
}
use muxer.System.Processing.{
  process_incoming_out_messages-Returns, process_incoming_in_messages-Returns,
  connect_unless_ok-WellFormed, cleanup_round-Returns,
}

either_way :
    (P : State → Type 0) (b : Bool) (o : Outcome State) (s : State)
    → Returns P o
    → P s
    → Returns P (if b then o else ok s)
either_way P true o s h k = h
either_way P false o s h k = k

initial_state-WellFormed : (codec : Codec) → WellFormed codec initial_state
initial_state-WellFormed codec = (
  record {
    mappings = tt;
    requests = tt;
    answers = tt;
    to_clients = tt;
    to_server = tt;
    server = (inl (omega arith), omega arith, omega arith);
    counter = omega arith;
  },
  (tt, tt),
)

returned : (P : State → Type 0) (o : Outcome State) → Returns P o → (s : State) × (o ≡ ok s)
returned P (ok s) h = (s, refl)
returned P abort h = absurd h
returned P out_of_fuel h = absurd h

module _ (codec : Codec) where
  -- Whatever section of code a thread runs in a well-formed state, it returns, without a failed
  -- assertion and within its bounds, and the state is well formed again. The sets of sockets are
  -- any; the operating system and the peers keep to `Allowed`.
  pub run-WellFormed :
      (e : Event) (s : State)
      → WellFormed codec s
      → Allowed codec e s
      → Returns (WellFormed codec) (run codec e s)
  unfolding run
  run-WellFormed (accept_client listener r_fd accepted) s h new =
      read_listener_socket-Returns codec listener r_fd accepted s h new
  run-WellFormed (read_server r_fd e_fd got) s h arrives =
      either_way (WellFormed codec) s.is_out_connection_ok _ s
        (read_out_socket-Returns codec r_fd e_fd got s h arrives) h
  run-WellFormed (read_clients r_fd e_fd recv) s h arrive =
      read_in_socket-Returns codec recv r_fd e_fd s h arrive
  run-WellFormed reply s h a = process_incoming_out_messages-Returns codec s h
  run-WellFormed request s h a = process_incoming_in_messages-Returns codec s h
  run-WellFormed (connect_server addresses) s h a = connect_unless_ok-WellFormed codec addresses s h
  run-WellFormed fill_server s h a = write_data_to_out_buffer-Returns codec s h
  run-WellFormed purge_messages s h a = free_w_in_messages-Returns codec s h
  run-WellFormed fill_clients s h a = write_data_to_in_buffer-Returns codec s h
  run-WellFormed (write_server w_fd e_fd took) s h taken =
      either_way (WellFormed codec) s.is_out_connection_ok _ s
        (write_out_socket-Returns codec w_fd e_fd took s h taken) h
  run-WellFormed (write_clients w_fd e_fd send) s h taken =
      write_in_socket-Returns codec send w_fd e_fd s h taken
  run-WellFormed clean_up s h a = cleanup_round-Returns codec s h

  -- In every state that the threads can reach, in whatever order their sections of code run, no two
  -- clients share a socket, no buffer holds more than its size, every reading buffer holds an
  -- incomplete frame or one that announces no byte, every queued request and answer can be sent on,
  -- every queued message fits its frame, every mapping and every request has a non-zero socket, and
  -- the counter of the invoke ids is at most 32767. The operating system and the peers keep to
  -- `Allowed`.
  pub Reach-WellFormed : (s : State) → Reach codec s → WellFormed codec s
  Reach-WellFormed s start = initial_state-WellFormed codec
  Reach-WellFormed s (step before s' e reach allowed runs) =
      Returns-ok (WellFormed codec) (run codec e before) runs
        (run-WellFormed e before (Reach-WellFormed before reach) allowed)

  -- Taken on its own, no section of code fails. In every state that sections of code lead to which
  -- run one after the other, none interrupted and each past its locks, every section, run in the
  -- same way with any sets of sockets from `select`, returns a reachable state: no assertion fails
  -- and no loop exceeds its bound. What happens between two threads inside a section, the waits for
  -- its locks and the `recv` calls in `shutdown_connection` are left out. The operating system and
  -- the peers keep to `Allowed`.
  pub Reach-run :
      (s : State) (e : Event)
      → Reach codec s
      → Allowed codec e s
      → (s' : State) × (run codec e s ≡ ok s') × Reach codec s'
  Reach-run s e reach allowed =
      let (s', runs) =
        returned (WellFormed codec) (run codec e s)
          (run-WellFormed e s (Reach-WellFormed s reach) allowed) in
      (s', runs, step s s' e reach allowed runs)
