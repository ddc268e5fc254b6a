-- ===== src/Dispatcher/Sockets.antt =====
-- muxer/dispatcher.c: the sets of sockets for `select`, and what is done with those that it found
-- ready. The sets are lists of sockets; the operating system's answers are arguments.
use muxer.Base.{
  ℕ, zero, suc, ◌+◌, ◌*◌, Bool, true, false, not, List, [], ◌∷◌, ◌++◌, ◌==◌, ltb, if◌then◌else◌,
  length, Option, none, some, Outcome, ok, out_of_fuel, ◌>>=◌, has, keep,
}
use muxer.Pdu.{buffer_ksize}
use muxer.State.{State, Connection, invalid_socket}
use muxer.Connection.{alloc_connection, remove_connection, shutdown_called}
use muxer.Dispatcher.Buffers.{
  Received, Sent, read_data, write_data, read_data_from_out_buffer, read_data_from_in_buffer,
}

abbrev pub FdSet : Type 0
FdSet = List ℕ

-- `FD_SET` and `FD_CLR`.
abbrev pub fd_set : ℕ → FdSet → FdSet
fd_set socket fd = if has socket fd then fd else socket ∷ fd

abbrev pub fd_clr : ℕ → FdSet → FdSet
fd_clr socket fd = keep (λ x. not (x == socket)) fd

-- The clients: one is read from only while its read buffer has room.
unfoldable pub add_clients_r : List Connection → FdSet × FdSet → FdSet × FdSet
add_clients_r [] (r_fd, e_fd) = (r_fd, e_fd)
add_clients_r (p ∷ rest) (r_fd, e_fd) = add_clients_r rest (
  if ltb (length p.r_buffer) buffer_ksize then fd_set p.socket r_fd else r_fd,
  fd_set p.socket e_fd,
)

abbrev pub fd_set_if : Bool → ℕ → FdSet × FdSet → FdSet × FdSet
fd_set_if true socket (fd, e_fd) = (fd_set socket fd, fd_set socket e_fd)
fd_set_if false socket (fd, e_fd) = (fd, e_fd)

unfoldable pub setup_r_fd_set : ℕ → State → FdSet × FdSet
unfolding add_clients_r
setup_r_fd_set listener_socket s = add_clients_r s.connections (
    fd_set_if s.is_out_connection_ok s.out_connection.socket
      (fd_set_if (not (listener_socket == invalid_socket)) listener_socket ([], [])))

unfoldable pub add_clients_w : List Connection → FdSet × FdSet → FdSet × FdSet
add_clients_w [] (w_fd, e_fd) = (w_fd, e_fd)
add_clients_w (p ∷ rest) (w_fd, e_fd) =
    add_clients_w rest (fd_set p.socket w_fd, fd_set p.socket e_fd)

unfoldable pub setup_w_fd_set : State → FdSet × FdSet
unfolding add_clients_w
setup_w_fd_set s =
    add_clients_w s.connections (fd_set_if s.is_out_connection_ok s.out_connection.socket ([], []))

-- What `accept` comes back with: a socket with the peer's address and port, or nothing.
abbrev pub Accepted : Type 0
Accepted = Option (ℕ × List ℕ × ℕ)

unfoldable pub accept_connection : Accepted → State → Outcome State
unfolding alloc_connection
accept_connection none s = ok s
accept_connection (some (socket, ip_addr, ip_port)) s = do
  new_connection ← alloc_connection socket ip_addr ip_port
  ok (record s { connections = s.connections ++ new_connection ∷ [] })

unfoldable pub read_listener_socket : ℕ → FdSet → Accepted → State → Outcome State
unfolding accept_connection
read_listener_socket listener_socket r_fd accepted s =
    if has listener_socket r_fd then accept_connection accepted s else ok s

-- The step that the readers share: a socket with an exception has failed, and a ready one is read.
unfoldable pub read_ready : Connection → FdSet → FdSet → Received → Outcome (Connection × Bool)
unfolding read_data
read_ready p r_fd e_fd got =
    if has p.socket e_fd
    then ok (p, false)
    else if has p.socket r_fd
    then read_data p got
    else ok (p, true)

unfoldable pub write_ready : Connection → FdSet → FdSet → Sent → Outcome (Connection × Bool)
unfolding write_data
write_ready p w_fd e_fd took =
    if has p.socket e_fd
    then ok (p, false)
    else if has p.socket w_fd
    then write_data p took
    else ok (p, true)

-- After the step: the set without the socket, unless an exception took precedence.
abbrev pub cleared : ℕ → FdSet → FdSet → FdSet × FdSet
cleared socket fd e_fd =
    if has socket e_fd then (fd, fd_clr socket e_fd) else (fd_clr socket fd, e_fd)

unfoldable pub read_out_socket : FdSet → FdSet → Received → State → Outcome State
unfolding read_ready read_data_from_out_buffer
read_out_socket r_fd e_fd got s = do
  (out, alright) ← read_ready s.out_connection r_fd e_fd got
  let s' = record s { out_connection = out }
  if alright then read_data_from_out_buffer s' else ok (record s' { event_do_cleanup = true })

unfoldable pub write_out_socket : FdSet → FdSet → Sent → State → Outcome State
unfolding write_ready
write_out_socket w_fd e_fd took s = do
  (out, alright) ← write_ready s.out_connection w_fd e_fd took
  let s' = record s { out_connection = out }
  ok (if alright then s' else record s' { event_do_cleanup = true })

-- A client that failed is shut down and removed.
unfoldable pub drop_client : Connection → State → Outcome State
unfolding shutdown_called remove_connection
drop_client p s = remove_connection p.socket (shutdown_called p.socket s)

-- The loop over the clients. `seen` are those before the one in hand, and the loop begins anew
-- whenever one is dropped; the sets keep what has been dealt with from being dealt with again.
unfoldable pub read_in_loop :
    ℕ → (ℕ → Received) → List Connection → List Connection → FdSet → FdSet → State → Outcome State
unfolding read_ready drop_client read_data_from_in_buffer
read_in_loop zero recv seen todo r_fd e_fd s = out_of_fuel
read_in_loop (suc fuel) recv seen [] r_fd e_fd s = ok (record s { connections = seen })
read_in_loop (suc fuel) recv seen (p ∷ rest) r_fd e_fd s = do
  (p', alright) ← read_ready p r_fd e_fd (recv p.socket)
  let (r_fd', e_fd') = cleared p.socket r_fd e_fd
  elim alright [
    | true ↦ do
      (p'', s') ← read_data_from_in_buffer p' s
      read_in_loop fuel recv (seen ++ p'' ∷ []) rest r_fd' e_fd' s'
    | false ↦ do
      s' ← drop_client p' (record s { connections = seen ++ p' ∷ rest })
      read_in_loop fuel recv [] s'.connections r_fd' e_fd' s'
  ]

-- The most rounds that the loops over `n` clients make.
abbrev pub rounds : ℕ → ℕ
rounds n = n * n + n + 1

unfoldable pub read_in_socket : (ℕ → Received) → FdSet → FdSet → State → Outcome State
unfolding read_in_loop
read_in_socket recv r_fd e_fd s =
    read_in_loop (rounds (length s.connections)) recv [] s.connections r_fd e_fd s

unfoldable pub write_in_loop :
    ℕ → (ℕ → Sent) → List Connection → List Connection → FdSet → FdSet → State → Outcome State
unfolding write_ready drop_client
write_in_loop zero send seen todo w_fd e_fd s = out_of_fuel
write_in_loop (suc fuel) send seen [] w_fd e_fd s = ok (record s { connections = seen })
write_in_loop (suc fuel) send seen (p ∷ rest) w_fd e_fd s = do
  (p', alright) ← write_ready p w_fd e_fd (send p.socket)
  let (w_fd', e_fd') = cleared p.socket w_fd e_fd
  elim alright [
    | true ↦ write_in_loop fuel send (seen ++ p' ∷ []) rest w_fd' e_fd' s
    | false ↦ do
      s' ← drop_client p' (record s { connections = seen ++ p' ∷ rest })
      write_in_loop fuel send [] s'.connections w_fd' e_fd' s'
  ]

unfoldable pub write_in_socket : (ℕ → Sent) → FdSet → FdSet → State → Outcome State
unfolding write_in_loop
write_in_socket send w_fd e_fd s =
    write_in_loop (rounds (length s.connections)) send [] s.connections w_fd e_fd s
