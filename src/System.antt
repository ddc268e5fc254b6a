-- ===== src/System.antt =====
-- The threads of muxer/dispatcher.c together: every section of code that one thread runs under its
-- locks is an event, and the threads' sections follow each other in any order. The sets of sockets
-- that `select` gave to a section may be older than the state it runs in. A section has all its locks
-- and is not interrupted, so waits for locks are not represented; nor is that `q_free` on
-- `w_out_messages` in `write_data_to_out_buffer` runs after the queue's lock has been left, which is
-- taken to be part of the step. System/Wakeups has the
-- events that the threads wait for.
pub mod Clients
pub mod Loops
pub mod Reading
pub mod Readers
pub mod Writing
pub mod Writers
pub mod Processing
pub mod Runs
pub mod Contracts
pub mod Watching
pub mod Watchers
pub mod Wakeups
use muxer.Base.{
  ℕ, ◌+◌, ◌≤◌, ◌<◌, ◌≡◌, ◌≢◌, List, [], ◌∷◌, ◌++◌, length, All, Option, none, some, Outcome, ok,
  if◌then◌else◌, ℤ, to_sint, uint_mod, Bool, true, has,
}
use muxer.Pdu.{Pdu, buffer_ksize}
use muxer.Pdu.Framing.{frames, Fits, IsPartial}
use muxer.Pdu.Reading.{IsSplit}
use muxer.State.{State, Connection, Mapping, InMessage, OutMessage, initial_state}
use muxer.Connection.Removal.{IsDistinct}
use muxer.Protocol.{
  Codec, encode_in_pdu, decode_in_pdu, encode_out_pdu, decode_out_pdu, max_invokeid,
  process_incoming_in_messages, process_incoming_out_messages,
}
use muxer.Dispatcher.Buffers.{
  Received, received, recv_error, Sent, sent, send_error, write_data_to_out_buffer,
  write_data_to_in_buffer, free_w_in_messages_mapped_to_invalid_sockets,
}
use muxer.Dispatcher.Sockets.{
  FdSet, Accepted, read_listener_socket, read_out_socket, read_in_socket, write_out_socket,
  write_in_socket,
}
use muxer.Dispatcher.Threads.{Attempt, connect_to_output, cleanup_round}

-- The sections, with what `select` found and what the operating system answers.
pub data Event : Type 0 where
  accept_client : ℕ → FdSet → Accepted → Event
  read_server : FdSet → FdSet → Received → Event
  read_clients : FdSet → FdSet → (ℕ → Received) → Event
  reply : Event
  request : Event
  connect_server : Option (List Attempt) → Event
  fill_server : Event
  purge_messages : Event
  fill_clients : Event
  write_server : FdSet → FdSet → Sent → Event
  write_clients : FdSet → FdSet → (ℕ → Sent) → Event
  clean_up : Event

-- What `process_data` does before it turns to the messages.
unfoldable pub connect_unless_ok : Option (List Attempt) → State → State
unfolding connect_to_output
connect_unless_ok addresses s =
    if s.is_out_connection_ok
    then s
    else (let (s', connected_now) = connect_to_output addresses s in
        if connected_now then record s' { is_out_connection_ok = true } else s')

unfoldable pub run : Codec → Event → State → Outcome State
unfolding connect_unless_ok read_listener_socket read_out_socket read_in_socket write_out_socket
    write_in_socket process_incoming_out_messages process_incoming_in_messages cleanup_round
    write_data_to_out_buffer write_data_to_in_buffer free_w_in_messages_mapped_to_invalid_sockets
run codec (accept_client listener r_fd accepted) s = read_listener_socket listener r_fd accepted s
run codec (read_server r_fd e_fd got) s =
    if s.is_out_connection_ok then read_out_socket r_fd e_fd got s else ok s
run codec (read_clients r_fd e_fd recv) s = read_in_socket recv r_fd e_fd s
run codec reply s = process_incoming_out_messages codec s
run codec request s = process_incoming_in_messages codec s
run codec (connect_server addresses) s = ok (connect_unless_ok addresses s)
run codec fill_server s = write_data_to_out_buffer s
run codec purge_messages s = free_w_in_messages_mapped_to_invalid_sockets s
run codec fill_clients s = write_data_to_in_buffer s
run codec (write_server w_fd e_fd took) s =
    if s.is_out_connection_ok then write_out_socket w_fd e_fd took s else ok s
run codec (write_clients w_fd e_fd send) s = write_in_socket send w_fd e_fd s
run codec clean_up s = cleanup_round s

-- A payload that `write_pdu_to_send_buffer` takes.
abbrev pub IsSendable : Pdu → Type 0
IsSendable p = (2 ≤ length p) × (length p + 2 ≤ buffer_ksize)

-- A request that the encoder refuses or makes sendable, under every generated id.
abbrev pub IsRequest : Codec → Pdu → Type 0
IsRequest codec p =
    (id : ℕ)
    → id ≤ max_invokeid
    → let (err, pdu) =
        encode_in_pdu codec (record (decode_in_pdu codec p).1 { invokeid = to_sint id }) in
      err ≡ 0 → IsSendable pdu

-- An answer that can be sent on, under every id that a client may have chosen.
abbrev pub IsAnswer : Codec → Pdu → Type 0
IsAnswer codec p =
    (id : ℕ)
    → id < uint_mod
    → IsSendable
        (encode_out_pdu codec (record (decode_out_pdu codec p).1 { invokeid = to_sint id })).1

-- The bytes are whole frames with such payloads, and an incomplete one.
abbrev pub Carries : (Pdu → Type 0) → List ℕ → Type 0
Carries P buf = (ps : List Pdu) × (r : List ℕ) × IsSplit buffer_ksize buf ps r × All P ps

-- `recv` brings no more than there is room for, and the peer sends frames with such payloads.
abbrev pub Arrives : (Pdu → Type 0) → Connection → Received → Type 0
Arrives P c (received bytes) =
    (length (c.r_buffer ++ bytes) ≤ buffer_ksize) × Carries P (c.r_buffer ++ bytes)
Arrives P c (recv_error err) = Unit {0}

-- `send` takes no more than it was given.
abbrev pub IsTaken : Connection → Sent → Type 0
IsTaken c (sent bytes) = bytes ≤ length c.w_buffer
IsTaken c (send_error err) = Unit {0}

-- `accept` gives a socket that no client has.
abbrev pub IsNew : Accepted → List Connection → Type 0
IsNew none cs = Unit {0}
IsNew (some (socket, _, _)) cs = (0 < socket) × All (λ c. c.socket ≢ socket) cs

-- What the operating system and the peers keep to.
abbrev pub Allowed : Codec → Event → State → Type 0
Allowed codec (accept_client listener r_fd accepted) s = IsNew accepted s.connections
Allowed codec (read_server r_fd e_fd got) s = Arrives (IsAnswer codec) s.out_connection got
Allowed codec (read_clients r_fd e_fd recv) s =
    All (λ c. Arrives (IsRequest codec) c (recv c.socket)) s.connections
Allowed codec (write_server w_fd e_fd took) s = IsTaken s.out_connection took
Allowed codec (write_clients w_fd e_fd send) s = All (λ c. IsTaken c (send c.socket)) s.connections
Allowed codec _ s = Unit {0}

-- The buffers hold no more than their size, and the reading one no whole frame.
abbrev pub IsConnection : Connection → Type 0
IsConnection c =
    IsPartial buffer_ksize c.r_buffer
    × (length c.r_buffer ≤ buffer_ksize)
    × (length c.w_buffer ≤ buffer_ksize)

abbrev pub IsClient : Connection → Type 0
IsClient c = (0 < c.socket) × IsConnection c

abbrev pub IsMapping : Mapping → Type 0
IsMapping m = (0 < m.socket) × (m.invokeid_original < uint_mod)

-- The state but for its clients: what is queued can go on, and the counter is in its range.
pub record Sound (codec : Codec) (s : State) : Type 0 where
  pub mappings : All IsMapping s.socket_to_recv_unicast_msg
  pub requests : All (λ m. (0 < m.socket) × IsRequest codec m.pdu) s.r_in_messages
  pub answers : All (λ m. IsAnswer codec m.pdu) s.r_out_messages
  pub to_clients : All (λ m. IsSendable m.pdu) s.w_in_messages
  pub to_server : All (λ m. IsSendable m.pdu) s.w_out_messages
  pub server : IsConnection s.out_connection
  pub counter : s.invokeid_gen_counter ≤ max_invokeid

abbrev pub AreClients : List Connection → Type 0
AreClients cs = IsDistinct cs × All IsClient cs

-- No two clients share a socket, and clients, mappings, queues and buffers are as they should be.
abbrev pub WellFormed : Codec → State → Type 0
WellFormed codec s = Sound codec s × AreClients s.connections

-- The states that the program can be in.
pub data Reach (codec : Codec) : State → Type 0 where
  start : Reach codec initial_state
  step :
      (s s' : State) (e : Event)
      → Reach codec s
      → Allowed codec e s
      → run codec e s ≡ ok s'
      → Reach codec s'
