-- ===== src/Tests/Handshakes.antt =====
-- The threads of muxer/dispatcher.c on their way to a cleanup.
use muxer.Base.{◌≤◌, ◌≡◌, ◌≢◌, refl, ◌⊎◌, true, false, some}
use muxer.Handshake.{
  processing, comm_write, comm_read, passed, working, stopping, cleaning, Threads, spawned, update,
  Move, arrive, pass, leave, wake, begin_cleanup, sigint, signal_start, arrive_at_gate, move, Reach,
  start, step,
}
use muxer.Handshake.Ranks.{IsWork}
use muxer.Handshake.Stopping.{done, stopping_ends, begin_cleanup_still}

-- The main thread has come to the end of `spawn_threads`.
abbrev signalled : Threads
signalled = record spawned { is_spawned = true }

-- All three arrive at the gate, the processing thread goes through it, and the user ends the
-- program.
abbrev one : Threads
one = arrive_at_gate processing signalled

abbrev two : Threads
two = arrive_at_gate comm_write one

abbrev three : Threads
three = arrive_at_gate comm_read two

abbrev through : Threads
through = record three { place = update processing passed three.place }

abbrev interrupted : Threads
interrupted = record through { is_app_active = false; event_do_cleanup = true }

abbrev woken : Threads
woken = record interrupted { cleaner = stopping; event_start_threads = false }

abbrev begun : Threads
begun = record woken { cleaner = cleaning }

-- The processing thread marks itself as running only now.
abbrev raced : Threads
raced = record begun {
  place = update processing working begun.place;
  event_stopped = update processing false begun.event_stopped;
}

woken-Reach : Reach woken
unfolding move arrive_at_gate update
woken-Reach =
    step interrupted woken wake
      (step through interrupted sigint
        (step three through (pass processing)
          (step two three (arrive comm_read)
            (step one two (arrive comm_write)
              (step signalled one (arrive processing)
                (step spawned signalled signal_start start refl) refl)
              refl)
            refl)
          refl)
        refl)
      refl

begun-Reach : Reach begun
unfolding move arrive_at_gate update
begun-Reach = step woken begun begin_cleanup woken-Reach refl

-- A worker that was through the gate before it closed runs while the cleanup does.
raced-Reach : Reach raced × (raced.cleaner ≡ cleaning) × (raced.place processing ≡ working)
unfolding move arrive_at_gate update
raced-Reach = (step begun raced (leave processing) begun-Reach refl, refl, refl)

stopping_ends_example :
    (0 ≤ 6)
    × ((move begin_cleanup woken ≡ some (record woken { cleaner = cleaning }))
        ⊎ ((m : Move) × (s' : Threads) × IsWork m × (move m woken ≡ some s')))
unfolding woken-Reach
stopping_ends_example = stopping_ends woken woken 0 woken-Reach refl refl refl (done woken)

begin_cleanup_still_example : begun.place processing ≢ working
unfolding move arrive_at_gate update
begin_cleanup_still_example = begin_cleanup_still woken begun processing woken-Reach refl

-- The user ends the program before `spawn_threads` has come to its end.
abbrev hasty : Threads
hasty = record spawned { is_app_active = false; event_do_cleanup = true }

abbrev hasty_stopping : Threads
hasty_stopping = record hasty { cleaner = stopping; event_start_threads = false }

abbrev reopened : Threads
reopened = record hasty_stopping { is_spawned = true; event_start_threads = true }

-- Its `SetEvent` then opens the gate while the cleanup thread waits for the workers to stop.
late_signal : Reach reopened × (reopened.cleaner ≡ stopping) × (reopened.event_start_threads ≡ true)
unfolding move
late_signal = (
  step hasty_stopping reopened signal_start
      (step hasty hasty_stopping wake (step spawned hasty sigint start refl) refl) refl,
  refl,
  refl,
)
