-- ===== src/Dispatcher/Threads.antt =====
-- muxer/dispatcher.c: connecting to the server, cleaning up, and one round of each thread. What the
-- operating system answers during the round is an argument.
use muxer.Base.{
  ℕ, ◌+◌, ◌%◌, Bool, true, false, not, List, [], ◌∷◌, ◌==◌, if◌then◌else◌, ◌||◌, Option, none, some,
  Outcome, ok, ◌>>=◌, keep,
}
use muxer.State.{State, invalid_socket}
use muxer.Message.{remove_all_messages}
use muxer.Mapping.{remove_all_mappings}
use muxer.Connection.{remove_all_connections, shutdown_called}
use muxer.Protocol.{Codec, process_incoming_in_messages, process_incoming_out_messages}
use muxer.Dispatcher.Buffers.{
  Received, Sent, write_data, write_data_to_out_buffer, write_data_to_in_buffer,
  free_w_in_messages_mapped_to_invalid_sockets,
}
use muxer.Dispatcher.Sockets.{
  FdSet, Accepted, setup_r_fd_set, setup_w_fd_set, read_listener_socket, read_out_socket,
  read_in_socket, write_out_socket, write_in_socket,
}

-- What comes of one of the server's addresses: no socket, no connection, or a connected socket.
pub data Attempt : Type 0 where
  no_socket : Attempt
  refused : Attempt
  connected : ℕ → Attempt

-- The loop over the addresses: the socket afterwards, and whether to go on.
unfoldable pub try_addresses : List Attempt → ℕ → ℕ × Bool
try_addresses [] socket = (socket, true)
try_addresses (no_socket ∷ rest) socket = (invalid_socket, false)
try_addresses (refused ∷ rest) socket = try_addresses rest invalid_socket
try_addresses (connected new ∷ rest) socket = (new, true)

-- `getaddrinfo` may fail. The result says whether the connection stands.
unfoldable pub connect_to_output : Option (List Attempt) → State → State × Bool
unfolding try_addresses
connect_to_output none s = (s, false)
connect_to_output (some addresses) s =
    let (socket, go_on) = try_addresses addresses s.out_connection.socket in
    let conn = s.out_connection in
    (
      record s { out_connection = record conn { socket = socket } },
      if go_on then not (socket == invalid_socket) else false,
    )

unfoldable pub process_messages : Codec → State → Outcome State
unfolding process_incoming_in_messages process_incoming_out_messages
process_messages codec s = do
  s' ← process_incoming_out_messages codec s
  process_incoming_in_messages codec s'

unfoldable pub process_data : Codec → Option (List Attempt) → State → Outcome State
unfolding connect_to_output process_messages
process_data codec addresses s =
    if s.is_out_connection_ok
    then process_messages codec s
    else (let (s', connected_now) = connect_to_output addresses s in
        if connected_now
        then process_messages codec (record s' { is_out_connection_ok = true })
        else ok s')

unfoldable pub cleanup : State → Outcome State
unfolding remove_all_messages remove_all_mappings remove_all_connections
cleanup s =
    let conn = s.out_connection in
    remove_all_connections (
      remove_all_mappings (
        remove_all_messages (record s {
          is_out_connection_ok = false;
          out_connection = record conn { r_buffer = []; w_buffer = [] };
        })))

abbrev pub is_empty {ℓ} : {A : Type ℓ} → List A → Bool
is_empty [] = true
is_empty (x ∷ xs) = false

-- One round of `thread_processing`.
unfoldable pub processing_round : Codec → Option (List Attempt) → State → Outcome State
unfolding process_data
processing_round codec addresses s = do
  s' ← process_data codec addresses (record s { event_process_data = false })
  ok (record s' {
    event_process_data =
        if not (is_empty s'.r_in_messages) || not (is_empty s'.r_out_messages)
        then true
        else s'.event_process_data;
  })

-- What `select` says of the sockets it is asked about, and what the calls on those that it found
-- ready come back with.
pub record ReadReady : Type 0 where
  pub readable : ℕ → Bool
  pub excepted : ℕ → Bool
  pub accepted : Accepted
  pub recv_out : Received
  pub recv_in : ℕ → Received

pub record WriteReady : Type 0 where
  pub writable : ℕ → Bool
  pub excepted : ℕ → Bool
  pub send_out : Sent
  pub send_in : ℕ → Sent

unfoldable pub read_sockets : ℕ → FdSet → FdSet → ReadReady → State → Outcome State
unfolding read_listener_socket read_out_socket read_in_socket
read_sockets listener_socket read_fd except_fd io s = do
  s' ← read_listener_socket listener_socket read_fd io.accepted s
  s'' ← if s'.is_out_connection_ok then read_out_socket read_fd except_fd io.recv_out s' else ok s'
  read_in_socket io.recv_in read_fd except_fd s''

-- One round of `thread_comm_read`; `none` if `select` failed or nothing was ready.
unfoldable pub comm_read_round : ℕ → Option ReadReady → State → Outcome State
unfolding setup_r_fd_set read_sockets
comm_read_round listener_socket none s = ok s
comm_read_round listener_socket (some io) s =
    let (read_fd, except_fd) = setup_r_fd_set listener_socket s in
    read_sockets listener_socket (keep io.readable read_fd) (keep io.excepted except_fd) io s

unfoldable pub write_sockets : FdSet → FdSet → WriteReady → State → Outcome State
unfolding write_out_socket write_in_socket
write_sockets write_fd except_fd io s = do
  s' ← if s.is_out_connection_ok then write_out_socket write_fd except_fd io.send_out s else ok s
  write_in_socket io.send_in write_fd except_fd s'

unfoldable pub select_and_write : Option WriteReady → State → Outcome State
unfolding setup_w_fd_set write_sockets
select_and_write none s = ok s
select_and_write (some io) s =
    let (write_fd, except_fd) = setup_w_fd_set s in
    write_sockets (keep io.writable write_fd) (keep io.excepted except_fd) io s

-- `count++`, and whether the round purges; the count begins anew then.
unfoldable pub next_count : ℕ → ℕ × Bool
next_count count = if (count + 1) % 1000 == 0 then (1, true) else (count + 1, false)

-- One round of `thread_comm_write`, with its `count`: one round in a thousand frees the messages of
-- clients that are gone.
unfoldable pub comm_write_round : ℕ → Option WriteReady → State → Outcome (ℕ × State)
unfolding write_data_to_out_buffer write_data_to_in_buffer
    free_w_in_messages_mapped_to_invalid_sockets select_and_write next_count
comm_write_round count io s = do
  s1 ← write_data_to_out_buffer (record s { event_new_message = false })
  let (count', purge) = next_count count
  s2 ← if purge then free_w_in_messages_mapped_to_invalid_sockets s1 else ok s1
  s3 ← write_data_to_in_buffer s2
  s4 ← select_and_write io s3
  ok (
    count',
    record s4 {
      event_new_message =
          if not (is_empty s4.w_in_messages) || not (is_empty s4.w_out_messages)
          then true
          else s4.event_new_message;
    },
  )

-- What `thread_comm_write` does when the program ends.
unfoldable pub comm_write_end : Sent → State → Outcome State
unfolding write_data shutdown_called
comm_write_end took s = do
  (out, _) ← write_data s.out_connection took
  ok (shutdown_called out.socket (record s { out_connection = out }))

-- One round of `thread_cleanup`, once the other threads have stopped.
unfoldable pub cleanup_round : State → Outcome State
unfolding cleanup
cleanup_round s = do
  s' ← cleanup (record s { event_new_message = true; event_process_data = true })
  ok (record s' { event_do_cleanup = false; event_new_message = true; event_process_data = true })
