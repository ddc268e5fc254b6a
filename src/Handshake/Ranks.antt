-- ===== src/Handshake/Ranks.antt =====
-- How far the working threads of muxer/dispatcher.c are from a closed gate.
use muxer.Base.{ℕ, ◌+◌, ◌≤◌, ◌<◌, ◌≡◌, refl, arith, Bool, true, false, if◌then◌else◌, ap}
use muxer.Handshake.{
  Worker, processing, comm_write, comm_read, Place, starting, at_gate, passed, working, ended,
  Threads, update, Move, arrive, pass, leave, arrive_from, arrive_at_gate, end_worker, pass_from,
  leave_from, move,
}
use muxer.Handshake.Marks.{Keeps}

-- How many moves a worker makes before it stands at a closed gate or has ended.
abbrev pub rank_of : Place → ℕ
rank_of starting = 1
rank_of at_gate = 0
rank_of passed = 2
rank_of working = 1
rank_of ended = 0

abbrev pub rank : (Worker → Place) → ℕ
rank place = rank_of (place processing) + rank_of (place comm_write) + rank_of (place comm_read)

rank-update :
    (t : Worker) (a : Place) (f : Worker → Place)
    → rank (update t a f) + rank_of (f t) ≡ rank f + rank_of a
unfolding update
rank-update processing a f = omega arith
rank-update comm_write a f = omega arith
rank-update comm_read a f = omega arith

pub rank_of-le : (p : Place) → rank_of p ≤ 2
rank_of-le starting = omega arith
rank_of-le at_gate = omega arith
rank_of-le passed = omega arith
rank_of-le working = omega arith
rank_of-le ended = omega arith

-- A move of one of the workers.
abbrev pub IsWork : Move → Type 0
IsWork (arrive t) = Unit {0}
IsWork (pass t) = Unit {0}
IsWork (leave t) = Unit {0}
IsWork _ = ⊥

-- The worker is nearer to its stop, and the cleanup thread still waits behind the closed gate.
abbrev pub Nearer : Threads → Threads → Type 0
Nearer s s' =
    (rank s'.place < rank s.place)
    × (s'.cleaner ≡ s.cleaner)
    × (s'.event_start_threads ≡ s.event_start_threads)

chosen : (P : Threads → Type 0) (b : Bool) (s s' : Threads) → P s → P s' → P (if b then s else s')
chosen P true s s' h k = h
chosen P false s s' h k = k

arrive_from-Nearer :
    (place : Place) (t : Worker) (s : Threads)
    → s.place t ≡ place
    → Keeps (Nearer s) (arrive_from place t s)
unfolding arrive_from arrive_at_gate end_worker
arrive_from-Nearer starting t s e =
    let less = rank-update t at_gate s.place in let here = ap rank_of e in (omega arith, refl, refl)
arrive_from-Nearer at_gate t s e = tt
arrive_from-Nearer passed t s e = tt
arrive_from-Nearer working t s e =
    let less = rank-update t at_gate s.place in
    let less' = rank-update t ended s.place in
    let here = ap rank_of e in
    chosen (Nearer s) s.is_app_active (arrive_at_gate t s) (end_worker t s)
      (omega arith, refl, refl) (omega arith, refl, refl)
arrive_from-Nearer ended t s e = tt

pass_from-Nearer :
    (place : Place) (t : Worker) (s : Threads)
    → s.event_start_threads ≡ false
    → Keeps (Nearer s) (pass_from place t s)
unfolding pass_from
pass_from-Nearer starting t s closed = tt
pass_from-Nearer at_gate t s closed = rw closed tt
pass_from-Nearer passed t s closed = tt
pass_from-Nearer working t s closed = tt
pass_from-Nearer ended t s closed = tt

leave_from-Nearer :
    (place : Place) (t : Worker) (s : Threads)
    → s.place t ≡ place
    → Keeps (Nearer s) (leave_from place t s)
unfolding leave_from
leave_from-Nearer starting t s e = tt
leave_from-Nearer at_gate t s e = tt
leave_from-Nearer passed t s e =
    let less = rank-update t working s.place in let here = ap rank_of e in (omega arith, refl, refl)
leave_from-Nearer working t s e = tt
leave_from-Nearer ended t s e = tt

pub move-Nearer :
    (m : Move) (s : Threads)
    → IsWork m
    → s.event_start_threads ≡ false
    → Keeps (Nearer s) (move m s)
unfolding move
move-Nearer (arrive t) s work closed = arrive_from-Nearer (s.place t) t s refl
move-Nearer (pass t) s work closed = pass_from-Nearer (s.place t) t s closed
move-Nearer (leave t) s work closed = leave_from-Nearer (s.place t) t s refl
move-Nearer m s work closed = absurd work
