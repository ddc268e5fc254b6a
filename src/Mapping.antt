-- ===== src/Mapping.antt =====
-- muxer/mapping.c: which client waits for the answer with which generated invoke id.
pub mod Removal
pub mod Stored
pub mod Filtered
pub mod Unlinking
use muxer.Base.{ℕ, ltb, List, [], ◌∷◌, ◌==◌, if◌then◌else◌, Outcome, ok, ◌>>=◌, ◌>>◌, check}
use muxer.State.{State, Connection, Mapping}

unfoldable pub alloc_socket_invokeid_mapping : ℕ → ℕ → ℕ → Outcome Mapping
alloc_socket_invokeid_mapping socket invokeid_original invokeid_generated = do
  check (ltb 0 socket)
  ok (record {
    socket = socket;
    invokeid_original = invokeid_original;
    invokeid_generated = invokeid_generated;
  })

-- The macro REMOVE_MAPPINGS: the loop over one table.
unfoldable pub remove_mappings_for : ℕ → List Mapping → List Mapping
remove_mappings_for socket [] = []
remove_mappings_for socket (p ∷ rest) =
    let left = remove_mappings_for socket rest in if p.socket == socket then left else p ∷ left

unfoldable pub remove_all_mappings_for : ℕ → State → State
unfolding remove_mappings_for
remove_all_mappings_for socket s = record s {
  socket_to_recv_unicast_msg = remove_mappings_for socket s.socket_to_recv_unicast_msg;
  socket_to_recv_multicast_msg = remove_mappings_for socket s.socket_to_recv_multicast_msg;
}

unfoldable pub remove_mappings_of : List Connection → State → State
unfolding remove_all_mappings_for
remove_mappings_of [] s = s
remove_mappings_of (r ∷ rest) s = remove_mappings_of rest (remove_all_mappings_for r.socket s)

unfoldable pub remove_all_mappings : State → State
unfolding remove_mappings_of
remove_all_mappings s = remove_mappings_of s.connections s
