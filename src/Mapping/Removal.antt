-- ===== src/Mapping/Removal.antt =====
-- Which mappings the functions of muxer/mapping.c leave.
use muxer.Base.{ℕ, ◌≡◌, refl, arith, List, [], ◌∷◌, not, has, keep, map, ◌∙◌}
use muxer.State.{State, Connection, Mapping}
use muxer.Mapping.{
  remove_mappings_for, remove_all_mappings_for, remove_mappings_of, remove_all_mappings,
}

-- The mappings whose socket is none of these.
abbrev pub without_sockets : List ℕ → List Mapping → List Mapping
without_sockets sockets = keep (λ m. not (has m.socket sockets))

abbrev pub sockets_of : List Connection → List ℕ
sockets_of = map (λ c. c.socket)

pub without_sockets-nil : (ms : List Mapping) → without_sockets [] ms ≡ ms
without_sockets-nil [] = refl
without_sockets-nil (m ∷ ms) = ground (arith, without_sockets-nil ms)

pub remove_mappings_for_lem :
    (socket : ℕ) (ms : List Mapping)
    → remove_mappings_for socket ms ≡ without_sockets (socket ∷ []) ms
unfolding remove_mappings_for
remove_mappings_for_lem socket [] = refl
remove_mappings_for_lem socket (m ∷ ms) = ground (arith, remove_mappings_for_lem socket ms)

pub without_sockets-cons :
    (socket : ℕ) (sockets : List ℕ) (ms : List Mapping)
    → without_sockets sockets (remove_mappings_for socket ms)
      ≡ without_sockets (socket ∷ sockets) ms
unfolding remove_mappings_for
without_sockets-cons socket sockets [] = refl
without_sockets-cons socket sockets (m ∷ ms) =
    ground (arith, without_sockets-cons socket sockets ms)

-- The state without the mappings of some sockets, in both tables.
abbrev pub forget : List ℕ → State → State
forget sockets s = record s {
  socket_to_recv_unicast_msg = without_sockets sockets s.socket_to_recv_unicast_msg;
  socket_to_recv_multicast_msg = without_sockets sockets s.socket_to_recv_multicast_msg;
}

pub forget-nil : (s : State) → forget [] s ≡ s
forget-nil s = rw (
  without_sockets-nil s.socket_to_recv_unicast_msg,
  without_sockets-nil s.socket_to_recv_multicast_msg,
)

pub remove_all_mappings_for_lem :
    (socket : ℕ) (s : State) → remove_all_mappings_for socket s ≡ forget (socket ∷ []) s
unfolding remove_all_mappings_for
remove_all_mappings_for_lem socket s = rw (remove_mappings_for_lem, remove_mappings_for_lem)

pub forget-remove_all_mappings_for :
    (socket : ℕ) (sockets : List ℕ) (s : State)
    → forget sockets (remove_all_mappings_for socket s) ≡ forget (socket ∷ sockets) s
unfolding remove_all_mappings_for
forget-remove_all_mappings_for socket sockets s = rw (
  without_sockets-cons socket sockets s.socket_to_recv_unicast_msg,
  without_sockets-cons socket sockets s.socket_to_recv_multicast_msg,
)

remove_mappings_of_lem :
    (cs : List Connection) (s : State) → remove_mappings_of cs s ≡ forget (sockets_of cs) s
unfolding remove_mappings_of
remove_mappings_of_lem [] s = rw (forget-nil s)
remove_mappings_of_lem (c ∷ cs) s =
    remove_mappings_of_lem cs (remove_all_mappings_for c.socket s)
    ∙ forget-remove_all_mappings_for c.socket (sockets_of cs) s

-- `remove_all_mappings` leaves, in both tables, exactly the mappings whose socket is no connected
-- client's, in order, and changes nothing else.
pub remove_all_mappings_lem :
    (s : State) → remove_all_mappings s ≡ forget (sockets_of s.connections) s
unfolding remove_all_mappings
remove_all_mappings_lem s = remove_mappings_of_lem s.connections s
