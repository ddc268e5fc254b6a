-- ===== src/Tests/Streams.antt =====
-- Two messages on their way to the server and to a client.
use muxer.Base.{
  ℕ, ◌≤◌, ◌≡◌, refl, arith, inl, inr, true, false, List, [], ◌∷◌, ◌++◌, length, map, All, Returns,
}
use muxer.Pdu.{Pdu, buffer_ksize, write_pdu_to_send_buffer}
use muxer.Pdu.Framing.{frame, frames}
use muxer.Pdu.Collecting.{collect, collect_all}
use muxer.State.{State, Connection, initial_state}
use muxer.Dispatcher.Buffers.{write_data_to_in_buffer, write_data_to_out_buffer}
use muxer.Dispatcher.Sockets.{write_out_socket}
use muxer.Dispatcher.Delivery.{messages_for}
use muxer.Dispatcher.Filling.{transmit, stream, IsReady}
use muxer.Dispatcher.Transmission.{transmit_lem}
use muxer.Dispatcher.Streams.{stream_of, write_data_to_in_buffer_lem}
use muxer.Dispatcher.Link.{transmit-collect}

abbrev first : Pdu
first = 7 ∷ 65 ∷ []

abbrev second : Pdu
second = 8 ∷ 66 ∷ 67 ∷ []

abbrev queued : State
queued = record initial_state {
  w_out_messages = record { pdu = first } ∷ record { pdu = second } ∷ [];
}

-- The processing thread has signalled them.
abbrev signalled : State
signalled = record queued { event_new_message = true }

queued-IsReady : IsReady queued
queued-IsReady = ground arith

abbrev takes : List ℕ
takes = 3 ∷ 1 ∷ 1 ∷ 4 ∷ 2 ∷ 2 ∷ 1 ∷ 1 ∷ 1 ∷ []

takes_some : All (λ n. 1 ≤ n) takes
takes_some = ground arith

abbrev client : Connection
client = record {
  socket = 5;
  ip_address = record { ip = []; port = 80 };
  r_buffer = [];
  w_buffer = [];
}

abbrev addressed : State
addressed = record initial_state {
  connections = client ∷ [];
  w_in_messages = record { socket = 6; pdu = first } ∷ record { socket = 5; pdu = second } ∷ [];
}

transmit_lem_example :
    Returns
      (λ (out, s'). out ++ stream s' ≡ stream queued)
      (transmit ((true, 3) ∷ (false, 9) ∷ (false, 0) ∷ []) queued)
transmit_lem_example = transmit_lem ((true, 3) ∷ (false, 9) ∷ (false, 0) ∷ []) queued queued-IsReady

transmit-collect_example :
    Returns
      (λ (out, s').
        Returns
          (λ (pdus, left, rest). (pdus ≡ first ∷ second ∷ []) × (left ≡ []) × (rest ≡ []))
          (collect buffer_ksize [] out takes))
      (transmit ((false, 1024) ∷ (false, 1024) ∷ []) signalled)
unfolding frames frame
transmit-collect_example =
    transmit-collect ((false, 1024) ∷ (false, 1024) ∷ []) takes signalled queued-IsReady refl
      (inr (refl, (omega arith, (omega arith, tt)), omega arith)) takes_some (omega arith)

-- `send` takes a part of the last message: the thread waits with the rest in its buffer, however
-- often its turn comes.
stalled :
    Returns
      (λ (out, s'). (out ≡ 0 ∷ 2 ∷ 7 ∷ 65 ∷ 0 ∷ []) × (s'.out_connection.w_buffer ≡ 3 ∷ second))
      (transmit ((false, 9) ∷ (false, 1) ∷ (false, 9) ∷ (false, 9) ∷ []) signalled)
unfolding transmit write_data_to_out_buffer write_out_socket write_pdu_to_send_buffer
stalled = (refl, refl)

collect_all_example :
    Returns
      (λ (qs, left, rest). (qs ≡ first ∷ second ∷ []) × (left ≡ 0 ∷ []) × (rest ≡ []))
      (collect 16 [] (0 ∷ 2 ∷ 7 ∷ 65 ∷ 0 ∷ 3 ∷ 8 ∷ 66 ∷ 67 ∷ 0 ∷ []) (1 ∷ takes))
unfolding frames frame
collect_all_example =
    collect_all 16 (first ∷ second ∷ []) (0 ∷ []) _ (1 ∷ takes) (omega arith) (ground arith)
      (inl (omega arith)) refl (omega arith, takes_some) (omega arith)

write_data_to_in_buffer_lem_example :
    Returns
      (λ s'.
        (map (stream_of s'.w_in_messages) s'.connections
          ≡ map (stream_of addressed.w_in_messages) addressed.connections)
        × All
            (λ c. length c.w_buffer ≡ 0 → messages_for c.socket s'.w_in_messages ≡ [])
            s'.connections)
      (write_data_to_in_buffer addressed)
write_data_to_in_buffer_lem_example =
    write_data_to_in_buffer_lem addressed (tt, tt) (ground arith) (ground arith)
