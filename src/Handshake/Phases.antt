-- ===== src/Handshake/Phases.antt =====
-- What the events of muxer/dispatcher.c say of the places of the threads, in every state.
use muxer.Base.{
  none, some, arith, ◌&&◌, Bool-cases, ◌≡◌, refl, inl, inr, Bool, true, false, if◌then◌else◌,
}
use muxer.Handshake.{
  Worker, Place, starting, at_gate, passed, working, ended, Cleaner, waiting, stopping, cleaning,
  ending, Threads, Move, arrive, pass, leave, ask_cleanup, wake, begin_cleanup, finish_cleanup,
  end_cleanup, sigint, arrive_from, arrive_at_gate, end_worker, pass_from, leave_from, ask_from,
  clean_from, all_workers, move, Reach, start, step, is_at_rest, is_timely_move, is_timely,
  signal_start,
}
use muxer.Handshake.Marks.{
  Marked, Guarded, Orderly, Tidy, update-same, update-cases, Keeps, Keeps-if, chosen, asked,
  inactive, still-Marked, reset-Marked, opened,
}

module _ (b : Bool) (t : Worker) (s : Threads) (h : Tidy b s) where
  arrive_at_gate-Tidy :
      Marked s.is_app_active at_gate true (s.event_ended t) → Tidy b (arrive_at_gate t s)
  unfolding arrive_at_gate
  arrive_at_gate-Tidy mark = record {
    marked = λ u. elim (update-cases t u) [
      | inl e ↦ rw (e, update-same, update-same) mark
      | inr (places, events) ↦ rw (places, events) (h.marked u)
    ];
    guarded = h.guarded;
  }

  end_worker-Tidy : s.is_app_active ≡ false → Tidy b (end_worker t s)
  unfolding end_worker
  end_worker-Tidy done = record {
    marked = λ u. elim (update-cases t u) [
      | inl e ↦ rw (e, update-same, update-same) (refl, done)
      | inr (places, events) ↦ rw (places, events, events) (h.marked u)
    ];
    guarded = h.guarded;
  }

  arrive_from-Tidy : (place : Place) → s.place t ≡ place → Keeps (Tidy b) (arrive_from place t s)
  unfolding arrive_from
  arrive_from-Tidy starting e =
      let mark = rw e at (h.marked t) in arrive_at_gate-Tidy (refl, mark.1)
  arrive_from-Tidy at_gate e = tt
  arrive_from-Tidy passed e = tt
  arrive_from-Tidy working e =
      let mark = rw e at (h.marked t) in
      chosen (Tidy b) s.is_app_active (arrive_at_gate t s) (end_worker t s)
        (λ a. arrive_at_gate-Tidy (refl, mark.1)) (λ a. end_worker-Tidy a)
  arrive_from-Tidy ended e = tt

  pass_from-Tidy : (place : Place) → s.place t ≡ place → Keeps (Tidy b) (pass_from place t s)
  unfolding pass_from
  pass_from-Tidy starting e = tt
  pass_from-Tidy at_gate e =
      let mark = rw e at (h.marked t) in
      Keeps-if (Tidy b) s.event_start_threads _ (λ open_gate. record {
        marked = λ u. elim (update-cases t u) [
          | inl e' ↦ rw (e', update-same) mark
          | inr (places, events) ↦ rw places (h.marked u)
        ];
        guarded = h.guarded;
      })
  pass_from-Tidy passed e = tt
  pass_from-Tidy working e = tt
  pass_from-Tidy ended e = tt

  leave_from-Tidy : (place : Place) → s.place t ≡ place → Keeps (Tidy b) (leave_from place t s)
  unfolding leave_from
  leave_from-Tidy starting e = tt
  leave_from-Tidy at_gate e = tt
  leave_from-Tidy passed e =
      let mark = rw e at (h.marked t) in
      record {
        marked = λ u. elim (update-cases t u) [
          | inl e' ↦ rw (e', update-same, update-same) (refl, mark.1)
          | inr (places, events) ↦ rw (places, events) (h.marked u)
        ];
        guarded = h.guarded;
      }
  leave_from-Tidy working e = tt
  leave_from-Tidy ended e = tt

  ask_from-Tidy : (place : Place) → Keeps (Tidy b) (ask_from place s)
  unfolding ask_from
  ask_from-Tidy starting = tt
  ask_from-Tidy at_gate = tt
  ask_from-Tidy passed = tt
  ask_from-Tidy working = record {
    marked = h.marked;
    guarded =
        λ e. asked s.cleaner s.event_start_threads s.event_do_cleanup s.is_app_active (h.guarded e);
  }
  ask_from-Tidy ended = tt

cleaned-Guarded : (active : Bool) → Guarded (if active then waiting else ending) true false active
cleaned-Guarded true = refl
cleaned-Guarded false = (refl, refl)

clean_from-Tidy :
    (b : Bool) (c : Cleaner) (m : Move) (s : Threads)
    → s.cleaner ≡ c
    → Tidy b s
    → Keeps (Tidy b) (clean_from c m s)
unfolding clean_from
clean_from-Tidy b waiting wake s e h =
    Keeps-if (Tidy b) s.event_do_cleanup _
      (λ wanted. record { marked = h.marked; guarded = λ t. (refl, wanted) })
clean_from-Tidy b stopping begin_cleanup s e h =
    Keeps-if (Tidy b) (all_workers s.event_stopped) _ (λ all. record {
      marked = h.marked;
      guarded = λ t. let guarded = h.guarded t in rw e at guarded;
    })
clean_from-Tidy b cleaning finish_cleanup s e h = record {
  marked = h.marked;
  guarded = λ t. cleaned-Guarded s.is_app_active;
}
clean_from-Tidy b ending end_cleanup s e h = record {
  marked = λ u. elim (Bool-cases (all_workers s.event_ended)) [
    | inl all ↦ rw all (
        reset-Marked (s.place u) s.is_app_active (s.event_stopped u) (s.event_ended u) (h.marked u))
    | inr some_left ↦ rw some_left (h.marked u)
  ];
  guarded = λ t. let guarded = h.guarded t in rw e at guarded;
}
clean_from-Tidy b c m s e h = tt

-- What holds of the gate if two things are so.
both : (b c : Bool) → (b && c) ≡ true → (b ≡ true) × (c ≡ true)
both b c e = (ground arith, ground arith)

Tidy-and : (b c : Bool) (s : Threads) → Tidy b s → Tidy (b && c) s
Tidy-and b c s h = record { marked = h.marked; guarded = λ e. h.guarded (both b c e).0 }

signal_start-Tidy :
    (b spawned : Bool) (s : Threads)
    → Tidy b s
    → Keeps (Tidy (b && is_at_rest s.cleaner)) (
        if spawned then none else some (record s { is_spawned = true; event_start_threads = true }))
signal_start-Tidy b true s h = tt
signal_start-Tidy b false s h = record {
  marked = h.marked;
  guarded = λ e.
      let (timely, rest) = both b (is_at_rest s.cleaner) e in
      opened s.cleaner s.event_start_threads s.event_do_cleanup s.is_app_active rest
        (h.guarded timely);
}

sigint-Tidy :
    (b : Bool) (s : Threads)
    → Tidy b s
    → Tidy b (record s { is_app_active = false; event_do_cleanup = true })
sigint-Tidy b s h = record {
  marked = λ u. still-Marked (s.place u) s.is_app_active _ _ (h.marked u);
  guarded = λ e.
      inactive s.cleaner s.event_start_threads s.event_do_cleanup s.is_app_active (h.guarded e);
}

move-Tidy :
    (b : Bool) (m : Move) (s : Threads)
    → Tidy b s
    → Keeps (Tidy (b && is_timely_move m s)) (move m s)
unfolding move
move-Tidy b (arrive t) s h = arrive_from-Tidy (b && true) t s (Tidy-and b true s h) (s.place t) refl
move-Tidy b (pass t) s h = pass_from-Tidy (b && true) t s (Tidy-and b true s h) (s.place t) refl
move-Tidy b (leave t) s h = leave_from-Tidy (b && true) t s (Tidy-and b true s h) (s.place t) refl
move-Tidy b (ask_cleanup t) s h = ask_from-Tidy (b && true) t s (Tidy-and b true s h) (s.place t)
move-Tidy b sigint s h = sigint-Tidy (b && true) s (Tidy-and b true s h)
move-Tidy b signal_start s h = signal_start-Tidy b s.is_spawned s h
move-Tidy b wake s h = clean_from-Tidy (b && true) s.cleaner wake s refl (Tidy-and b true s h)
move-Tidy b begin_cleanup s h =
    clean_from-Tidy (b && true) s.cleaner begin_cleanup s refl (Tidy-and b true s h)
move-Tidy b finish_cleanup s h =
    clean_from-Tidy (b && true) s.cleaner finish_cleanup s refl (Tidy-and b true s h)
move-Tidy b end_cleanup s h =
    clean_from-Tidy (b && true) s.cleaner end_cleanup s refl (Tidy-and b true s h)

pub Reach-Tidy : (s : Threads) (reach : Reach s) → Tidy (is_timely s reach) s
Reach-Tidy s start = record { marked = λ u. (refl, refl); guarded = λ e. refl }
Reach-Tidy s (step before s' m reach moves) =
    rw moves at (move-Tidy (is_timely before reach) m before (Reach-Tidy before reach))

pub Reach-Orderly : (s : Threads) (reach : Reach s) → is_timely s reach ≡ true → Orderly s
Reach-Orderly s reach timely =
    let tidy = Reach-Tidy s reach in record { marked = tidy.marked; guarded = tidy.guarded timely }
