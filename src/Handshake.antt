-- ===== src/Handshake.antt =====
-- How the threads of muxer/dispatcher.c stop for the cleanup and end with the program: the events
-- `h_event_start_threads`, `h_event_do_cleanup`, the stop and end events of the three working
-- threads, and `is_app_active`. The threads already run when the main thread, at the end of
-- `spawn_threads`, sets `h_event_start_threads`; that is a move of its own. What a thread does between two of them is one place.
pub mod Marks
pub mod Phases
pub mod Ranks
pub mod Stopping
use muxer.Base.{Bool, true, false, ◌&&◌, if◌then◌else◌, Option, none, some, List, [], ◌∷◌, ◌≡◌}

-- The threads that the cleanup waits for.
pub data Worker : Type 0 where
  processing : Worker
  comm_write : Worker
  comm_read : Worker

-- Before the loop, at the gate (stopped, waiting for `h_event_start_threads`), through the gate
-- but not yet marked as running, at work, and after the loop.
pub data Place : Type 0 where
  starting : Place
  at_gate : Place
  passed : Place
  working : Place
  ended : Place

-- The cleanup thread waits for `h_event_do_cleanup`, waits for the others to stop, cleans up, waits
-- for the others to end, and is over.
pub data Cleaner : Type 0 where
  waiting : Cleaner
  stopping : Cleaner
  cleaning : Cleaner
  ending : Cleaner
  over : Cleaner

pub record Threads : Type 0 where
  pub place : Worker → Place
  pub event_stopped : Worker → Bool
  pub event_ended : Worker → Bool
  pub cleaner : Cleaner
  pub event_start_threads : Bool
  pub event_do_cleanup : Bool
  pub is_app_active : Bool
  pub is_spawned : Bool

-- As `create_events` and the creation of the threads leave them; `is_spawned` says whether
-- `spawn_threads` has come to its end.
abbrev pub spawned : Threads
spawned = record {
  place = λ t. starting;
  event_stopped = λ t. false;
  event_ended = λ t. false;
  cleaner = waiting;
  event_start_threads = true;
  event_do_cleanup = false;
  is_app_active = true;
  is_spawned = false;
}

-- The function with one worker's value replaced.
unfoldable pub update {ℓ} : {A : Type ℓ} → Worker → A → (Worker → A) → Worker → A
update processing a f processing = a
update comm_write a f comm_write = a
update comm_read a f comm_read = a
update t a f u = f u

-- What can happen next.
pub data Move : Type 0 where
  arrive : Worker → Move
  pass : Worker → Move
  leave : Worker → Move
  ask_cleanup : Worker → Move
  wake : Move
  begin_cleanup : Move
  finish_cleanup : Move
  end_cleanup : Move
  sigint : Move
  signal_start : Move

-- `SetEvent` on the stop event, at the head of the loop.
unfoldable pub arrive_at_gate : Worker → Threads → Threads
unfolding update
arrive_at_gate t s = record s {
  place = update t at_gate s.place;
  event_stopped = update t true s.event_stopped;
}

-- What a worker does after the loop.
unfoldable pub end_worker : Worker → Threads → Threads
unfolding update
end_worker t s = record s {
  place = update t ended s.place;
  event_stopped = update t true s.event_stopped;
  event_ended = update t true s.event_ended;
}

unfoldable pub arrive_from : Place → Worker → Threads → Option Threads
unfolding arrive_at_gate end_worker
arrive_from starting t s = some (arrive_at_gate t s)
arrive_from working t s = some (if s.is_app_active then arrive_at_gate t s else end_worker t s)
arrive_from _ t s = none

-- `WaitForSingleObject(h_event_start_threads)` comes back.
unfoldable pub pass_from : Place → Worker → Threads → Option Threads
unfolding update
pass_from at_gate t s =
    if s.event_start_threads then some (record s { place = update t passed s.place }) else none
pass_from _ t s = none

-- `ResetEvent` on the stop event.
unfoldable pub leave_from : Place → Worker → Threads → Option Threads
unfolding update
leave_from passed t s =
    some (record s {
      place = update t working s.place;
      event_stopped = update t false s.event_stopped;
    })
leave_from _ t s = none

unfoldable pub ask_from : Place → Threads → Option Threads
ask_from working s = some (record s { event_do_cleanup = true })
ask_from _ s = none

abbrev pub all_workers : (Worker → Bool) → Bool
all_workers f = f processing && (f comm_write && f comm_read)

-- The cleanup thread from one place to the next. The wait for the end events, which ends after ten
-- seconds too, resets them if it finds them all set.
unfoldable pub clean_from : Cleaner → Move → Threads → Option Threads
clean_from waiting wake s =
    if s.event_do_cleanup
    then some (record s { cleaner = stopping; event_start_threads = false })
    else none
clean_from stopping begin_cleanup s =
    if all_workers s.event_stopped then some (record s { cleaner = cleaning }) else none
clean_from cleaning finish_cleanup s = some (record s {
  cleaner = if s.is_app_active then waiting else ending;
  event_do_cleanup = false;
  event_start_threads = true;
})
clean_from ending end_cleanup s = some (record s {
  cleaner = over;
  event_ended = if all_workers s.event_ended then (λ t. false) else s.event_ended;
})
clean_from _ _ s = none

-- `none` if the move is not possible in the state.
unfoldable pub move : Move → Threads → Option Threads
unfolding arrive_from pass_from leave_from ask_from clean_from
move (arrive t) s = arrive_from (s.place t) t s
move (pass t) s = pass_from (s.place t) t s
move (leave t) s = leave_from (s.place t) t s
move (ask_cleanup t) s = ask_from (s.place t) s
move sigint s = some (record s { is_app_active = false; event_do_cleanup = true })
move signal_start s =
    if s.is_spawned then none else some (record s { is_spawned = true; event_start_threads = true })
move m s = clean_from s.cleaner m s

pub data Reach : Threads → Type 0 where
  start : Reach spawned
  step : (s s' : Threads) (m : Move) → Reach s → move m s ≡ some s' → Reach s'

-- Whether the cleanup thread is neither waiting for the others to stop nor cleaning up.
abbrev pub is_at_rest : Cleaner → Bool
is_at_rest stopping = false
is_at_rest cleaning = false
is_at_rest c = true

abbrev pub is_timely_move : Move → Threads → Bool
is_timely_move signal_start s = is_at_rest s.cleaner
is_timely_move m s = true

-- Whether the `SetEvent` of `spawn_threads`, if it has come, came while the cleanup thread was at
-- rest.
abbrev pub is_timely : (s : Threads) → Reach s → Bool
is_timely s start = true
is_timely s (step before s' m reach moves) = is_timely before reach && is_timely_move m before
