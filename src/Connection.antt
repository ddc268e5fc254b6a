-- ===== src/Connection.antt =====
-- muxer/connection.c: the connected clients.
pub mod Removal
use muxer.Base.{
  ℕ, suc, ltb, leb, List, [], ◌∷◌, ◌==◌, ◌++◌, true, false, Outcome, ok, ◌>>=◌, ◌>>◌, check,
}
use muxer.State.{State, Connection}
use muxer.Mapping.{remove_all_mappings_for}

unfoldable pub alloc_connection : ℕ → List ℕ → ℕ → Outcome Connection
alloc_connection socket ip_addr ip_port = do
  check (ltb 0 socket)
  ok (record {
    socket = socket;
    ip_address = record { ip = ip_addr; port = ip_port };
    r_buffer = [];
    w_buffer = [];
  })

-- The loop of `remove_connection`: the connections that stay, the state with the mappings of the
-- others removed, and `count`.
unfoldable pub remove_connections : ℕ → List Connection → State → ℕ → List Connection × State × ℕ
remove_connections socket [] s count = ([], s, count)
remove_connections socket (p ∷ rest) s count = elim (p.socket == socket) [
  | true ↦ remove_connections socket rest (remove_all_mappings_for p.socket s) (suc count)
  | false ↦
      let (left, s', count') = remove_connections socket rest s count in (p ∷ left, s', count')
]

unfoldable pub remove_connection : ℕ → State → Outcome State
unfolding remove_connections
remove_connection socket s = do
  let (left, s', count) = remove_connections socket s.connections s 0
  check (leb count 1)
  ok (record s' { connections = left })

-- The call of `shutdown_connection`. It changes nothing in the program's own state; which sockets it
-- was called on is kept. What it does to a socket is `shutdown_socket` in Winsock.
unfoldable pub shutdown_called : ℕ → State → State
shutdown_called socket s = record s { shut_down = s.shut_down ++ socket ∷ [] }

unfoldable pub remove_each_connection : List Connection → State → Outcome State
unfolding shutdown_called remove_connection
remove_each_connection [] s = ok s
remove_each_connection (r ∷ rest) s = do
  s' ← remove_connection r.socket (shutdown_called r.socket s)
  remove_each_connection rest s'

unfoldable pub remove_all_connections : State → Outcome State
unfolding remove_each_connection
remove_all_connections s = remove_each_connection s.connections s
