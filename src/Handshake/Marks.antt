-- ===== src/Handshake/Marks.antt =====
-- What the events of muxer/dispatcher.c should say of the places of the threads.
use muxer.Base.{◌≡◌, refl, ◌⊎◌, inl, inr, Bool, true, false, if◌then◌else◌, Option, none, some}
use muxer.Handshake.{
  Worker, processing, comm_write, comm_read, Place, starting, at_gate, passed, working, ended,
  Cleaner, waiting, stopping, cleaning, ending, over, Threads, update, is_at_rest,
}

-- A worker's stop and end events, by its place.
abbrev pub Marked : Bool → Place → Bool → Bool → Type 0
Marked active starting stop_set end_set = (stop_set ≡ false) × (end_set ≡ false)
Marked active at_gate stop_set end_set = (stop_set ≡ true) × (end_set ≡ false)
Marked active passed stop_set end_set = (stop_set ≡ true) × (end_set ≡ false)
Marked active working stop_set end_set = (stop_set ≡ false) × (end_set ≡ false)
Marked active ended stop_set end_set = (stop_set ≡ true) × (active ≡ false)

-- The gate is closed from the moment the cleanup thread wakes until it has cleaned up.
abbrev pub Guarded : Cleaner → Bool → Bool → Bool → Type 0
Guarded waiting gate asked active = gate ≡ true
Guarded stopping gate asked active = (gate ≡ false) × (asked ≡ true)
Guarded cleaning gate asked active = (gate ≡ false) × (asked ≡ true)
Guarded ending gate asked active = (gate ≡ true) × (active ≡ false)
Guarded over gate asked active = (gate ≡ true) × (active ≡ false)

pub record Orderly (s : Threads) : Type 0 where
  pub marked :
      (u : Worker) → Marked s.is_app_active (s.place u) (s.event_stopped u) (s.event_ended u)
  pub guarded : Guarded s.cleaner s.event_start_threads s.event_do_cleanup s.is_app_active

-- The same, with the gate's part only if `timely`.
pub record Tidy (timely : Bool) (s : Threads) : Type 0 where
  pub marked :
      (u : Worker) → Marked s.is_app_active (s.place u) (s.event_stopped u) (s.event_ended u)
  pub guarded :
      timely ≡ true → Guarded s.cleaner s.event_start_threads s.event_do_cleanup s.is_app_active

pub update-same {ℓ} : {A : Type ℓ} (t : Worker) (a : A) (f : Worker → A) → update t a f t ≡ a
unfolding update
update-same processing a f = refl
update-same comm_write a f = refl
update-same comm_read a f = refl

-- Another worker's place and events stay.
pub update-cases :
    (t u : Worker)
    → (u ≡ t)
      ⊎ (((a : Place) (f : Worker → Place) → update t a f u ≡ f u)
          × ((a : Bool) (f : Worker → Bool) → update t a f u ≡ f u))
unfolding update
update-cases processing processing = inl refl
update-cases processing comm_write = inr ((λ a f. refl), λ a f. refl)
update-cases processing comm_read = inr ((λ a f. refl), λ a f. refl)
update-cases comm_write processing = inr ((λ a f. refl), λ a f. refl)
update-cases comm_write comm_write = inl refl
update-cases comm_write comm_read = inr ((λ a f. refl), λ a f. refl)
update-cases comm_read processing = inr ((λ a f. refl), λ a f. refl)
update-cases comm_read comm_write = inr ((λ a f. refl), λ a f. refl)
update-cases comm_read comm_read = inl refl

-- The state after a move, if there is one.
abbrev pub Keeps : (Threads → Type 0) → Option Threads → Type 0
Keeps P none = Unit {0}
Keeps P (some s) = P s

pub Keeps-if :
    (P : Threads → Type 0) (b : Bool) (s : Threads)
    → (b ≡ true → P s)
    → Keeps P (if b then some s else none)
Keeps-if P true s h = h refl
Keeps-if P false s h = tt

pub chosen :
    (P : Threads → Type 0) (b : Bool) (s s' : Threads)
    → (b ≡ true → P s)
    → (b ≡ false → P s')
    → P (if b then s else s')
chosen P true s s' h k = h refl
chosen P false s s' h k = k refl

-- The gate does not depend on how often the cleanup is asked for.
pub asked :
    (c : Cleaner) (gate do_cleanup active : Bool)
    → Guarded c gate do_cleanup active
    → Guarded c gate true active
asked waiting gate do_cleanup active h = h
asked stopping gate do_cleanup active h = (h.0, refl)
asked cleaning gate do_cleanup active h = (h.0, refl)
asked ending gate do_cleanup active h = h
asked over gate do_cleanup active h = h

pub inactive :
    (c : Cleaner) (gate do_cleanup active : Bool)
    → Guarded c gate do_cleanup active
    → Guarded c gate true false
inactive waiting gate do_cleanup active h = h
inactive stopping gate do_cleanup active h = (h.0, refl)
inactive cleaning gate do_cleanup active h = (h.0, refl)
inactive ending gate do_cleanup active h = (h.0, refl)
inactive over gate do_cleanup active h = (h.0, refl)

pub still-Marked :
    (place : Place) (active stop_set end_set : Bool)
    → Marked active place stop_set end_set
    → Marked false place stop_set end_set
still-Marked starting active stop_set end_set h = h
still-Marked at_gate active stop_set end_set h = h
still-Marked passed active stop_set end_set h = h
still-Marked working active stop_set end_set h = h
still-Marked ended active stop_set end_set h = (h.0, refl)

-- The end event may be reset.
pub reset-Marked :
    (place : Place) (active stop_set end_set : Bool)
    → Marked active place stop_set end_set
    → Marked active place stop_set false
reset-Marked starting active stop_set end_set h = (h.0, refl)
reset-Marked at_gate active stop_set end_set h = (h.0, refl)
reset-Marked passed active stop_set end_set h = (h.0, refl)
reset-Marked working active stop_set end_set h = (h.0, refl)
reset-Marked ended active stop_set end_set h = h

-- Setting the gate's event while the cleanup thread is at rest.
pub opened :
    (c : Cleaner) (gate do_cleanup active : Bool)
    → is_at_rest c ≡ true
    → Guarded c gate do_cleanup active
    → Guarded c true do_cleanup active
opened waiting gate do_cleanup active rest h = refl
opened stopping gate do_cleanup active rest h = cc
opened cleaning gate do_cleanup active rest h = cc
opened ending gate do_cleanup active rest h = (refl, h.1)
opened over gate do_cleanup active rest h = (refl, h.1)
