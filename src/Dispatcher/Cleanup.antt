-- ===== src/Dispatcher/Cleanup.antt =====
-- What `cleanup` of muxer/dispatcher.c leaves after the server's connection failed.
use muxer.Base.{◌≡◌, refl, arith, Bool, false, not, List, [], ◌∷◌, ◌++◌, has, keep, ok, ◌∙◌, ap}
use muxer.State.{State, Connection, Mapping}
use muxer.Message.{free_messages, remove_all_messages}
use muxer.Mapping.Removal.{forget, sockets_of, without_sockets, remove_all_mappings_lem}
use muxer.Connection.{remove_all_connections}
use muxer.Connection.Removal.{IsDistinct, remove_all_connections_lem}
use muxer.Dispatcher.Threads.{cleanup}

free_messages_lem {ℓ} : {A : Type ℓ} (q : List A) → free_messages q ≡ []
unfolding free_messages
free_messages_lem [] = refl
free_messages_lem (x ∷ q) = free_messages_lem q

keep-keep {ℓ} : {A : Type ℓ} (p : A → Bool) (xs : List A) → keep p (keep p xs) ≡ keep p xs
keep-keep p [] = refl
keep-keep p (x ∷ xs) = ground (arith, keep-keep p xs)

-- No client, no message and no byte of the server's buffers is left; the mappings are those whose
-- client was gone before.
abbrev pub cleaned : State → State
cleaned s =
    let conn = s.out_connection in
    record s {
      connections = [];
      socket_to_recv_unicast_msg =
          without_sockets (sockets_of s.connections) s.socket_to_recv_unicast_msg;
      socket_to_recv_multicast_msg =
          without_sockets (sockets_of s.connections) s.socket_to_recv_multicast_msg;
      r_in_messages = [];
      w_in_messages = [];
      r_out_messages = [];
      w_out_messages = [];
      out_connection = record conn { r_buffer = []; w_buffer = [] };
      is_out_connection_ok = false;
      shut_down = s.shut_down ++ sockets_of s.connections;
    }

-- If no two clients share a socket, `cleanup` fails no assertion, shuts every client down in order,
-- and empties all four message queues, the list of clients and the server's buffers. A mapping is
-- removed if its client was still connected; one whose client was already gone stays.
pub cleanup_lem : (s : State) → IsDistinct s.connections → cleanup s ≡ ok (cleaned s)
unfolding cleanup
cleanup_lem s h =
    ap remove_all_connections (remove_all_mappings_lem emptied)
    ∙ remove_all_connections_lem (forget (sockets_of s.connections) emptied) h
    ∙ (rw (
      keep-keep gone s.socket_to_recv_unicast_msg,
      keep-keep gone s.socket_to_recv_multicast_msg,
      free_messages_lem s.r_in_messages,
      free_messages_lem s.w_in_messages,
      free_messages_lem s.r_out_messages,
      free_messages_lem s.w_out_messages,
    ))
  where
    gone : Mapping → Bool
    gone m = not (has m.socket (sockets_of s.connections))

    closed : Connection
    closed = let conn = s.out_connection in record conn { r_buffer = []; w_buffer = [] }

    emptied : State
    emptied =
        remove_all_messages (record s { is_out_connection_ok = false; out_connection = closed })
