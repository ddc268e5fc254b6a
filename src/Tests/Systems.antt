-- ===== src/Tests/Systems.antt =====
-- A client that joins the muxer and sends a request, as events of the threads.
use muxer.Base.{ℕ, false, true, [], ◌≡◌, refl, arith, ◌∷◌, some, ok, inl, to_sint}
use muxer.State.{State, Connection, initial_state}
use muxer.Pdu.{read_pdus_from_recv_buffer, header_of}
use muxer.Pdu.Framing.{frame, frames}
use muxer.Protocol.{encode_in_pdu, decode_in_pdu}
use muxer.Dispatcher.Buffers.{Received, received}
use muxer.System.{
  Event, accept_client, read_clients, run, Arrives, IsRequest, WellFormed, Reach, start, step,
}
use muxer.System.Wakeups.{Waking, Awakes, runs, Alert, Awakes-Alert}
use muxer.System.Wakeups
use muxer.System.Runs.{Reach-WellFormed, Reach-run}
use muxer.Tests.Protocols.{codec}

abbrev client : Connection
client = record {
  socket = 5;
  ip_address = record { ip = []; port = 80 };
  r_buffer = [];
  w_buffer = [];
}

abbrev joined : State
joined = record initial_state { connections = client ∷ [] }

abbrev joins : Event
joins = accept_client 3 (3 ∷ []) (some (5, [], 80))

-- Command 65 under invoke id 7, in its frame, and the first byte of another frame.
abbrev arrives : ℕ → Received
arrives socket = received (0 ∷ 2 ∷ 7 ∷ 65 ∷ 0 ∷ [])

abbrev sends : Event
sends = read_clients (5 ∷ []) [] arrives

joined-Reach : Reach codec joined
unfolding run
joined-Reach = step initial_state joined joins start (omega arith, tt) refl

asked-IsRequest : IsRequest codec (7 ∷ 65 ∷ [])
unfolding encode_in_pdu decode_in_pdu to_sint
asked-IsRequest id small err = (omega arith, omega arith)

arrives-Arrives : (c : Connection) → c.r_buffer ≡ [] → Arrives (IsRequest codec) c (arrives 5)
unfolding frames frame
arrives-Arrives c empty = rw empty (
  omega arith,
  (
    (7 ∷ 65 ∷ []) ∷ [],
    0 ∷ [],
    (refl, ((omega arith, omega arith), tt), inl (omega arith)),
    (asked-IsRequest, tt),
  ),
)

Reach-WellFormed_example : WellFormed codec joined
Reach-WellFormed_example = Reach-WellFormed codec joined joined-Reach

Reach-run_example : (s' : State) × (run codec sends joined ≡ ok s') × Reach codec s'
Reach-run_example = Reach-run codec joined sends joined-Reach (arrives-Arrives client refl, tt)

-- The same, with the threads that wait: the request is queued, and the processing thread asleep.
abbrev requested : State
requested = record initial_state {
  connections = record client { r_buffer = 0 ∷ [] } ∷ [];
  r_in_messages = record { socket = 5; pdu = 7 ∷ 65 ∷ [] } ∷ [];
  event_process_data = true;
}

abbrev asleep : State → Waking
asleep s = record { state = s; processing = false; writing = false }

requested-Awakes : Awakes codec (asleep requested)
unfolding run read_pdus_from_recv_buffer header_of
requested-Awakes =
    runs (asleep joined) requested sends (runs _ joined joins Wakeups.Awakes.start refl refl) refl
      refl

Awakes-Alert_example :
    Alert false (requested.r_in_messages, [], requested.event_process_data)
    × Alert false ([], [], false)
Awakes-Alert_example = Awakes-Alert codec (asleep requested) requested-Awakes
