-- ===== src/Handshake/Stopping.antt =====
-- What happens in muxer/dispatcher.c once the cleanup thread waits for the others to stop.
use muxer.Base.{
  ℕ, suc, ◌+◌, ◌≤◌, ◌≡◌, ◌≢◌, refl, arith, ◌⊎◌, inl, inr, Bool, true, false, if◌then◌else◌, some,
  ap, ◌∙◌,
}
use muxer.Handshake.{
  Worker, processing, comm_write, comm_read, Place, starting, at_gate, passed, working, ended,
  Cleaner, stopping, cleaning, Threads, update, is_timely, Move, arrive, leave, begin_cleanup,
  arrive_from, arrive_at_gate, end_worker, leave_from, clean_from, all_workers, move, Reach, step,
}
use muxer.Handshake.Marks.{Marked, Keeps, Keeps-if}
use muxer.Handshake.Phases.{Reach-Tidy, Reach-Orderly}
use muxer.Handshake.Ranks.{rank, rank_of-le, IsWork, Nearer, move-Nearer}

-- A number of moves of the workers, one after the other.
pub data Works : Threads → Threads → ℕ → Type 0 where
  done : (s : Threads) → Works s s 0
  more :
      (s s' last : Threads) (m : Move) (n : ℕ)
      → IsWork m
      → move m s ≡ some s'
      → Works s' last n
      → Works s last (suc n)

Works-rank :
    (s last : Threads) (n : ℕ)
    → Reach s
    → s.event_start_threads ≡ false
    → Works s last n
    → (n + rank last.place ≤ rank s.place) × (last.cleaner ≡ s.cleaner) × Reach last
Works-rank s last n reach closed (done _) = (omega arith, refl, reach)
Works-rank s last n reach closed (more _ s' _ m k work moves rest) =
    let (less, same, gate) : Nearer s s' = rw moves at (move-Nearer m s work closed) in
    let (fewer, same', reach') =
      Works-rank s' last k (step s s' m reach moves) (gate ∙ closed) rest in
    (omega arith, same' ∙ same, reach')

-- A worker that has not stopped can move.
abbrev CanWork : Threads → Type 0
CanWork s = (m : Move) × (s' : Threads) × IsWork m × (move m s ≡ some s')

stopped_or_moves :
    (s : Threads) (u : Worker) (place : Place)
    → s.place u ≡ place
    → Marked s.is_app_active place (s.event_stopped u) (s.event_ended u)
    → (s.event_stopped u ≡ true) ⊎ CanWork s
unfolding move arrive_from leave_from
stopped_or_moves s u starting e h =
    inr (arrive u, arrive_at_gate u s, tt, ap (λ p. arrive_from p u s) e)
stopped_or_moves s u at_gate e h = inl h.0
stopped_or_moves s u passed e h =
    let left = record s {
      place = update u working s.place;
      event_stopped = update u false s.event_stopped;
    } in
    inr (leave u, left, tt, ap (λ p. leave_from p u s) e)
stopped_or_moves s u working e h = inr (
  arrive u,
  if s.is_app_active then arrive_at_gate u s else end_worker u s,
  tt,
  ap (λ p. arrive_from p u s) e,
)
stopped_or_moves s u ended e h = inl h.0

begins :
    (s : Threads)
    → s.cleaner ≡ stopping
    → s.event_stopped processing ≡ true
    → s.event_stopped comm_write ≡ true
    → s.event_stopped comm_read ≡ true
    → move begin_cleanup s ≡ some (record s { cleaner = cleaning })
unfolding move
begins s e p w r = rw (e, clean_from, p, w, r)

-- Once `spawn_threads` has ended and the cleanup thread waits for the three others to stop, they
-- make at most six moves between them; and after any number of them either all have stopped and the
-- cleanup can begin, or one of them can move. The `SetEvent` at the end of `spawn_threads` has not
-- come while the cleanup thread waited or cleaned up. A round of a worker is taken to end.
pub stopping_ends :
    (s last : Threads) (n : ℕ) (reach : Reach s)
    → is_timely s reach ≡ true
    → s.is_spawned ≡ true
    → s.cleaner ≡ stopping
    → Works s last n
    → (n ≤ 6)
      × ((move begin_cleanup last ≡ some (record last { cleaner = cleaning })) ⊎ CanWork last)
stopping_ends s last n reach timely spawned e works =
    let orderly = Reach-Orderly s reach timely in
    let guarded = rw e at orderly.guarded in
    let (less, same, reach') = Works-rank s last n reach guarded.0 works in
    let p = rank_of-le (s.place processing) in
    let w = rank_of-le (s.place comm_write) in
    let r = rank_of-le (s.place comm_read) in
    (omega arith, next (same ∙ e) (Reach-Tidy last reach').marked)
  where
    next :
        last.cleaner ≡ stopping
        → ((u : Worker)
            → Marked last.is_app_active (last.place u) (last.event_stopped u) (last.event_ended u))
        → (move begin_cleanup last ≡ some (record last { cleaner = cleaning })) ⊎ CanWork last
    next e marked =
        elim (stopped_or_moves last processing (last.place processing) refl (marked processing)) [
          | inr can ↦ inr can
          | inl p ↦
              elim (stopped_or_moves last comm_write (last.place comm_write) refl
                (marked comm_write)) [
                  | inr can ↦ inr can
                  | inl w ↦
                      elim (stopped_or_moves last comm_read (last.place comm_read) refl
                        (marked comm_read)) [
                          | inr can ↦ inr can
                          | inl r ↦ inl (begins last e p w r)
                        ]
                ]
        ]

all_stopped : (f : Worker → Bool) → all_workers f ≡ true → (u : Worker) → f u ≡ true
all_stopped f h processing = ground arith
all_stopped f h comm_write = ground arith
all_stopped f h comm_read = ground arith

at_work :
    (place : Place) (active stop_set end_set : Bool)
    → Marked active place stop_set end_set
    → stop_set ≡ true
    → place ≢ working
at_work starting active stop_set end_set h e e' = cc
at_work at_gate active stop_set end_set h e e' = cc
at_work passed active stop_set end_set h e e' = cc
at_work working active stop_set end_set h e e' = let mark = h.0 in cc
at_work ended active stop_set end_set h e e' = cc

begin-still :
    (c : Cleaner) (s : Threads)
    → ((u : Worker) → Marked s.is_app_active (s.place u) (s.event_stopped u) (s.event_ended u))
    → Keeps (λ s'. (u : Worker) → s'.place u ≢ working) (clean_from c begin_cleanup s)
unfolding clean_from
begin-still stopping s marked =
    Keeps-if (λ s'. (u : Worker) → s'.place u ≢ working) (all_workers s.event_stopped) _
      (λ all u.
        at_work (s.place u) s.is_app_active (s.event_stopped u) (s.event_ended u) (marked u)
          (all_stopped s.event_stopped all u))
begin-still c s h = tt

-- At the moment the cleanup begins, no worker is marked as running.
pub begin_cleanup_still :
    (s s' : Threads) (u : Worker) → Reach s → move begin_cleanup s ≡ some s' → s'.place u ≢ working
unfolding move
begin_cleanup_still s s' u reach begins =
    let still : (u : Worker) → s'.place u ≢ working =
      rw begins at (begin-still s.cleaner s (Reach-Tidy s reach).marked) in
    still u
