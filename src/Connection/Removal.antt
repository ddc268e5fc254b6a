-- ===== src/Connection/Removal.antt =====
-- What muxer/connection.c removes, when no two connections share a socket.
use muxer.Base.{
  ℕ, suc, ◌≡◌, refl, arith, List, [], ◌∷◌, ◌++◌, ◌==◌, if◌then◌else◌, not, has, keep, ◌∙◌, false,
  Bool, ◌≢◌, All, ok, Bool-cases, inl, inr, eq_refl, append_assoc, append-nil,
}
use muxer.State.{State, Connection}
use muxer.Mapping.{remove_all_mappings_for}
use muxer.Mapping.Removal.{
  forget, without_sockets-nil, without_sockets-cons, sockets_of, remove_all_mappings_for_lem,
}
use muxer.Connection.{
  remove_connections, remove_connection, remove_each_connection, remove_all_connections,
  shutdown_called,
}

-- No two connections have one socket.
abbrev pub IsDistinct : List Connection → Type 0
IsDistinct [] = Unit {0}
IsDistinct (c ∷ cs) = All (λ d. d.socket ≢ c.socket) cs × IsDistinct cs

abbrev pub other_than : ℕ → Connection → Bool
other_than socket c = not (c.socket == socket)

remove_connections_none :
    (socket : ℕ) (cs : List Connection) (s : State) (n : ℕ)
    → All (λ d. d.socket ≢ socket) cs
    → (remove_connections socket cs s n ≡ (cs, s, n))
      × (keep (other_than socket) cs ≡ cs)
      × (has socket (sockets_of cs) ≡ false)
unfolding remove_connections
remove_connections_none socket [] s n h = (refl, refl, refl)
remove_connections_none socket (c ∷ cs) s n h =
    ground (arith, remove_connections_none socket cs s n h.1)

remove_connections_lem :
    (socket : ℕ) (cs : List Connection) (s : State) (n : ℕ)
    → IsDistinct cs
    → remove_connections socket cs s n ≡ (
        if has socket (sockets_of cs)
        then (keep (other_than socket) cs, remove_all_mappings_for socket s, suc n)
        else (cs, s, n))
unfolding remove_connections
remove_connections_lem socket [] s n h = refl
remove_connections_lem socket (c ∷ cs) s n h = ground (
  arith,
  remove_connections_none c.socket cs (remove_all_mappings_for c.socket s) (suc n) h.0,
  remove_connections_lem socket cs s n h.1,
)

-- If no two clients share a socket, `remove_connection` takes the connection of the socket out, if
-- there is one, and then also the mappings of that socket in both tables; else nothing changes. The
-- assertion on the count holds.
pub remove_connection_lem :
    (socket : ℕ) (s : State)
    → IsDistinct s.connections
    → remove_connection socket s
      ≡ ok (
          if has socket (sockets_of s.connections)
          then record (forget (socket ∷ []) s) {
            connections = keep (other_than socket) s.connections;
          }
          else s)
unfolding remove_connection
remove_connection_lem socket s h = elim (Bool-cases (has socket (sockets_of s.connections))) [
  | inl there ↦
      rw (remove_connections_lem socket s.connections s 0 h, there)
        (rw (remove_all_mappings_for_lem socket s) refl)
  | inr absent ↦ rw (remove_connections_lem socket s.connections s 0 h, absent) refl
]

-- The state in which these connections are shut down and removed, and no other is left.
abbrev pub dropped : List Connection → State → State
dropped cs s = record (forget (sockets_of cs) s) {
  connections = [];
  shut_down = s.shut_down ++ sockets_of cs;
}

remove_first :
    (c : Connection) (cs : List Connection) (s : State)
    → IsDistinct (c ∷ cs)
    → s.connections ≡ c ∷ cs
    → remove_connection c.socket (shutdown_called c.socket s)
      ≡ ok (record (remove_all_mappings_for c.socket s) {
        connections = cs;
        shut_down = s.shut_down ++ c.socket ∷ [];
      })
unfolding remove_connection shutdown_called remove_all_mappings_for
remove_first c cs s h e =
    let gone = λ (t : State). (remove_connections_none c.socket cs t 1 h.0).0 in
    rw (e, remove_connections, eq_refl c.socket, gone)

remove_each_connection_lem :
    (cs : List Connection) (s : State)
    → IsDistinct cs
    → s.connections ≡ cs
    → remove_each_connection cs s ≡ ok (dropped cs s)
unfolding remove_each_connection remove_all_mappings_for
remove_each_connection_lem [] s h e = rw (
  append-nil s.shut_down,
  without_sockets-nil s.socket_to_recv_unicast_msg,
  without_sockets-nil s.socket_to_recv_multicast_msg,
  ← e,
)
remove_each_connection_lem (c ∷ cs) s h e = rw (remove_first c cs s h e) (
    remove_each_connection_lem cs _ h.1 refl
    ∙ (rw (
      without_sockets-cons c.socket (sockets_of cs) s.socket_to_recv_unicast_msg,
      without_sockets-cons c.socket (sockets_of cs) s.socket_to_recv_multicast_msg,
      append_assoc s.shut_down (c.socket ∷ []) (sockets_of cs),
    )))

-- If no two clients share a socket, `remove_all_connections` shuts every client down, in the order
-- of the list, and forgets it and its mappings; no assertion fails.
pub remove_all_connections_lem :
    (s : State) → IsDistinct s.connections → remove_all_connections s ≡ ok (dropped s.connections s)
unfolding remove_all_connections
remove_all_connections_lem s h = remove_each_connection_lem s.connections s h refl
