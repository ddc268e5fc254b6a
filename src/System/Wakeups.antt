-- ===== src/System/Wakeups.antt =====
-- The events that the processing and the writing thread of muxer/dispatcher.c wait for, and the
-- messages that are queued for them. A section has the `SetEvent` behind its lock.
use muxer.Base.{
  ◌≡◌, refl, Bool, true, false, not, ◌||◌, List, [], ◌∷◌, ◌⊎◌, inl, inr, ok, Whenever, Whenever-ok,
  >>=-Whenever_any, if_both, if◌then◌else◌,
}
use muxer.State.{State, InMessage, OutMessage, initial_state}
use muxer.Protocol.{Codec}
use muxer.Dispatcher.Threads.{is_empty, cleanup, cleanup_round}
use muxer.Dispatcher.Sockets.{read_out_socket, write_out_socket}
use muxer.System.{
  connect_unless_ok, Event, accept_client, read_server, read_clients, reply, request,
  connect_server, fill_server, purge_messages, fill_clients, write_server, write_clients, clean_up,
  run,
}
use muxer.System.Watching.{
  View, for_processing, for_writing, Raised, Reads, read_listener_socket-Reads,
  read_out_socket-Reads, read_in_socket-Reads,
}
use muxer.System.Watchers.{
  Writes, write_data_to_out_buffer-Writes, write_data_to_in_buffer-Writes,
  free_w_in_messages-Writes, write_out_socket-Writes, write_in_socket-Writes, Processes,
  process_incoming_in_messages-Processes, process_incoming_out_messages-Processes,
  connect_unless_ok-Processes,
}

-- The state, and whether the two threads are past the wait for their event.
pub record Waking : Type 0 where
  pub state : State
  pub processing : Bool
  pub writing : Bool

-- Whether the thread that runs the section is past its wait.
abbrev pub is_running : Event → Waking → Bool
is_running reply w = w.processing
is_running request w = w.processing
is_running (connect_server addresses) w = w.processing
is_running fill_server w = w.writing
is_running purge_messages w = w.writing
is_running fill_clients w = w.writing
is_running (write_server w_fd e_fd took) w = w.writing
is_running (write_clients w_fd e_fd send) w = w.writing
is_running e w = true

-- `WaitForSingleObject` on `h_event_process_data` comes back, which resets the event.
unfoldable pub wake_processing : Waking → Waking
wake_processing w =
    let s = w.state in
    record w { state = record s { event_process_data = false }; processing = true }

-- The end of a round: the event is signalled again if something is queued.
unfoldable pub rest_processing : Waking → Waking
rest_processing w =
    let s = w.state in
    record w {
      state = record s {
        event_process_data =
            if not (is_empty s.r_in_messages) || not (is_empty s.r_out_messages)
            then true
            else s.event_process_data;
      };
      processing = false;
    }

unfoldable pub wake_writing : Waking → Waking
wake_writing w =
    let s = w.state in record w { state = record s { event_new_message = false }; writing = true }

unfoldable pub rest_writing : Waking → Waking
rest_writing w =
    let s = w.state in
    record w {
      state = record s {
        event_new_message =
            if not (is_empty s.w_in_messages) || not (is_empty s.w_out_messages)
            then true
            else s.event_new_message;
      };
      writing = false;
    }

abbrev at_start : Waking
at_start = record { state = initial_state; processing = false; writing = false }

-- What the two threads and the others can come to, with their sections in any order.
pub data Awakes (codec : Codec) : Waking → Type 0 where
  start : Awakes codec at_start
  wakes_processing :
      (w : Waking)
      → Awakes codec w
      → w.state.event_process_data ≡ true
      → Awakes codec (wake_processing w)
  rests_processing : (w : Waking) → Awakes codec w → Awakes codec (rest_processing w)
  wakes_writing :
      (w : Waking)
      → Awakes codec w
      → w.state.event_new_message ≡ true
      → Awakes codec (wake_writing w)
  rests_writing : (w : Waking) → Awakes codec w → Awakes codec (rest_writing w)
  runs :
      (w : Waking) (s' : State) (e : Event)
      → Awakes codec w
      → is_running e w ≡ true
      → run codec e w.state ≡ ok s'
      → Awakes codec (record w { state = s' })

-- A thread is past its wait, or its event is signalled, or nothing is queued for it.
abbrev pub Alert : Bool → View → Type 0
Alert running (ins, outs, event) = (running ≡ true) ⊎ ((event ≡ true) ⊎ ((ins ≡ []) × (outs ≡ [])))

Raised-Alert :
    (view : State → View) (running : Bool) (s s' : State)
    → Raised view s s'
    → Alert running (view s)
    → Alert running (view s')
Raised-Alert view running s s' (inl raised) alert = inr (inl raised)
Raised-Alert view running s s' (inr same) alert = rw same alert

rested :
    (ins : List InMessage) (outs : List OutMessage) (event : Bool)
    → Alert false (ins, outs, if not (is_empty ins) || not (is_empty outs) then true else event)
rested [] [] event = inr (inr (refl, refl))
rested [] (p ∷ outs) event = inr (inl refl)
rested (m ∷ ins) outs event = inr (inl refl)

abbrev Cleans : State → Type 0
Cleans s = (s.event_process_data ≡ true) × (s.event_new_message ≡ true)

cleanup_round-Cleans : (s : State) → Whenever Cleans (cleanup_round s)
unfolding cleanup_round
cleanup_round-Cleans s =
    >>=-Whenever_any Cleans
      (cleanup (record s { event_new_message = true; event_process_data = true })) _
      (λ s'. (refl, refl))

module _ (codec : Codec) where
  -- A section of another thread than the processing one.
  run-for_processing :
      (e : Event) (w : Waking) (s' : State)
      → is_running e w ≡ true
      → run codec e w.state ≡ ok s'
      → (w.processing ≡ true) ⊎ Raised for_processing w.state s'
  unfolding run
  run-for_processing reply w s' running e = inl running
  run-for_processing request w s' running e = inl running
  run-for_processing (connect_server addresses) w s' running e = inl running
  run-for_processing (accept_client listener r_fd accepted) w s' running e =
      inr
        (Whenever-ok (Reads w.state) _ e
          (read_listener_socket-Reads listener r_fd accepted w.state)).0
  run-for_processing (read_server r_fd e_fd got) w s' running e =
      inr
        (Whenever-ok (Reads w.state) _ e (
          if_both (Whenever (Reads w.state)) w.state.is_out_connection_ok
            (read_out_socket r_fd e_fd got w.state) (ok w.state)
            (read_out_socket-Reads r_fd e_fd got w.state) (inr refl, refl))).0
  run-for_processing (read_clients r_fd e_fd recv) w s' running e =
      inr (Whenever-ok (Reads w.state) _ e (read_in_socket-Reads recv r_fd e_fd w.state)).0
  run-for_processing fill_server w s' running e =
      inr (inr (Whenever-ok (Writes w.state) _ e (write_data_to_out_buffer-Writes w.state)))
  run-for_processing purge_messages w s' running e =
      inr (inr (Whenever-ok (Writes w.state) _ e (free_w_in_messages-Writes w.state)))
  run-for_processing fill_clients w s' running e =
      inr (inr (Whenever-ok (Writes w.state) _ e (write_data_to_in_buffer-Writes w.state)))
  run-for_processing (write_server w_fd e_fd took) w s' running e = inr (
      inr (
        Whenever-ok (Writes w.state) _ e (
          if_both (Whenever (Writes w.state)) w.state.is_out_connection_ok
            (write_out_socket w_fd e_fd took w.state) (ok w.state)
            (write_out_socket-Writes w_fd e_fd took w.state) refl)))
  run-for_processing (write_clients w_fd e_fd send) w s' running e =
      inr (inr (Whenever-ok (Writes w.state) _ e (write_in_socket-Writes send w_fd e_fd w.state)))
  run-for_processing clean_up w s' running e =
      inr (inl (Whenever-ok Cleans _ e (cleanup_round-Cleans w.state)).0)

  -- A section of another thread than the writing one.
  run-for_writing :
      (e : Event) (w : Waking) (s' : State)
      → is_running e w ≡ true
      → run codec e w.state ≡ ok s'
      → (w.writing ≡ true) ⊎ Raised for_writing w.state s'
  unfolding run
  run-for_writing fill_server w s' running e = inl running
  run-for_writing purge_messages w s' running e = inl running
  run-for_writing fill_clients w s' running e = inl running
  run-for_writing (write_server w_fd e_fd took) w s' running e = inl running
  run-for_writing (write_clients w_fd e_fd send) w s' running e = inl running
  run-for_writing (accept_client listener r_fd accepted) w s' running e = inr (
      inr
        (Whenever-ok (Reads w.state) _ e
          (read_listener_socket-Reads listener r_fd accepted w.state)).1)
  run-for_writing (read_server r_fd e_fd got) w s' running e = inr (
      inr
        (Whenever-ok (Reads w.state) _ e (
          if_both (Whenever (Reads w.state)) w.state.is_out_connection_ok
            (read_out_socket r_fd e_fd got w.state) (ok w.state)
            (read_out_socket-Reads r_fd e_fd got w.state) (inr refl, refl))).1)
  run-for_writing (read_clients r_fd e_fd recv) w s' running e =
      inr (inr (Whenever-ok (Reads w.state) _ e (read_in_socket-Reads recv r_fd e_fd w.state)).1)
  run-for_writing reply w s' running e =
      inr (
        Whenever-ok (Processes w.state) _ e (process_incoming_out_messages-Processes codec w.state))
  run-for_writing request w s' running e =
      inr
        (Whenever-ok (Processes w.state) _ e (process_incoming_in_messages-Processes codec w.state))
  run-for_writing (connect_server addresses) w s' running e = inr (
      Whenever-ok (Processes w.state) (ok (connect_unless_ok addresses w.state)) e
        (connect_unless_ok-Processes addresses w.state))
  run-for_writing clean_up w s' running e =
      inr (inl (Whenever-ok Cleans _ e (cleanup_round-Cleans w.state)).1)

  Alert-after :
      (view : State → View) (running : Bool) (s s' : State)
      → (running ≡ true) ⊎ Raised view s s'
      → Alert running (view s)
      → Alert running (view s')
  Alert-after view running s s' (inl awake) alert = inl awake
  Alert-after view running s s' (inr raised) alert = Raised-Alert view running s s' raised alert

  -- No wake-up is lost. Whatever sections of code the threads run, in any order, the processing and
  -- the writing thread running theirs only when they are past the wait for their event: at every
  -- time the processing thread is past its wait, or `h_event_process_data` is signalled, or no
  -- request and no answer is queued for it; and the writing thread is past its wait, or
  -- `h_event_new_message` is signalled, or no message is queued for it.
  pub Awakes-Alert :
      (w : Waking)
      → Awakes codec w
      → Alert w.processing (for_processing w.state) × Alert w.writing (for_writing w.state)
  unfolding wake_processing rest_processing wake_writing rest_writing
  Awakes-Alert _ start = (inr (inr (refl, refl)), inr (inr (refl, refl)))
  Awakes-Alert _ (wakes_processing w before signalled) = (inl refl, (Awakes-Alert w before).1)
  Awakes-Alert _ (rests_processing w before) = (
    rested w.state.r_in_messages w.state.r_out_messages w.state.event_process_data,
    (Awakes-Alert w before).1,
  )
  Awakes-Alert _ (wakes_writing w before signalled) = ((Awakes-Alert w before).0, inl refl)
  Awakes-Alert _ (rests_writing w before) = (
    (Awakes-Alert w before).0,
    rested w.state.w_in_messages w.state.w_out_messages w.state.event_new_message,
  )
  Awakes-Alert _ (runs w s' e before running ran) =
      let (p, q) = Awakes-Alert w before in
      (
        Alert-after for_processing w.processing w.state s' (run-for_processing e w s' running ran)
            p,
        Alert-after for_writing w.writing w.state s' (run-for_writing e w s' running ran) q,
      )
