-- ===== src/Dispatcher/Rounds.antt =====
-- The loops over the clients in muxer/dispatcher.c, and the rounds they take.
use muxer.Base.{
  ℕ, zero, suc, ◌+◌, ◌*◌, ◌≤◌, ◌<◌, ◌≡◌, arith, Bool, true, false, List, [], ◌∷◌, ◌++◌, length,
  length-append, Outcome, ok, abort, out_of_fuel, ◌≢◌, ◌>>=◌, Ends, >>=-Ends,
}
use native.Mathlib.Nat.{mul-le-mul_left}
use muxer.State.{State, Connection}
use muxer.Dispatcher.Buffers.{Received, Sent, read_data_from_in_buffer}
use muxer.Dispatcher.Sockets.{
  FdSet, read_ready, write_ready, drop_client, read_in_loop, read_in_socket, write_in_loop,
  write_in_socket, rounds,
}
use muxer.Dispatcher.Endings.{
  Anything, IsFewer, read_ready-Ends, write_ready-Ends, drop_client-Ends,
  read_data_from_in_buffer-Ends,
}

square_less : (a b : ℕ) → a < b → a * a + a ≤ b * b
square_less a b h =
    let one : suc a ≤ b = omega arith in
    let two : a ≤ b = omega arith in
    let first : a * suc a ≤ a * b = mul-le-mul_left a one in
    let second : b * a ≤ b * b = mul-le-mul_left b two in omega arith

pub not_out_of_fuel {ℓ} : {A : Type ℓ} (o : Outcome A) → Ends Anything o → o ≢ out_of_fuel
not_out_of_fuel (ok a) h e = cc
not_out_of_fuel abort h e = cc
not_out_of_fuel out_of_fuel h e = absurd h

pub again : (fuel n k rest : ℕ) → k < n → n * n + suc rest < suc fuel → k * k + k < fuel
again fuel n k rest less f = let square = square_less k n less in omega arith

-- A bound for the rounds left, with `n` clients of which these are still to come.
abbrev pub Bound : ℕ → ℕ → List Connection → List Connection → Type 0
Bound fuel n seen todo = (n ≡ length seen + length todo) × (n * n + length todo < fuel)

-- One round of a loop, given that the loop ends with one round less.
module _ (fuel n : ℕ)
    (loop : List Connection → List Connection → FdSet → FdSet → State → Outcome State)
    (ih : (k : ℕ) (seen todo : List Connection) (fd e_fd : FdSet) (s : State)
      → Bound fuel k seen todo
      → Ends Anything (loop seen todo fd e_fd s)) where
  begin_anew-Ends :
      (seen : List Connection) (p : Connection) (rest : List Connection) (fd e_fd : FdSet)
      (s : State)
      → n ≡ length seen + suc (length rest)
      → n * n + suc (length rest) < suc fuel
      → Ends Anything (
          drop_client p (record s { connections = seen ++ p ∷ rest }) >>= λ s'.
          loop [] s'.connections fd e_fd s')
  begin_anew-Ends seen p rest fd e_fd s e f =
      >>=-Ends (IsFewer (length (seen ++ p ∷ rest))) Anything
        (drop_client p (record s { connections = seen ++ p ∷ rest })) _
        (drop_client-Ends seen p rest s)
        (λ s' fewer. ih (length s'.connections) [] s'.connections fd e_fd s' (
          omega arith,
          again fuel n (length s'.connections) (length rest)
              (omega (arith, length-append seen (p ∷ rest))) f,
        ))

  go_on-Ends :
      (seen : List Connection) (p : Connection) (rest : List Connection) (fd e_fd : FdSet)
      (s : State)
      → n ≡ length seen + suc (length rest)
      → n * n + suc (length rest) < suc fuel
      → Ends Anything (loop (seen ++ p ∷ []) rest fd e_fd s)
  go_on-Ends seen p rest fd e_fd s e f =
      ih n (seen ++ p ∷ []) rest fd e_fd s (omega (arith, length-append seen (p ∷ [])), omega arith)

  read_step-Ends :
      (seen rest : List Connection) (fd e_fd : FdSet) (s : State)
      → n ≡ length seen + suc (length rest)
      → n * n + suc (length rest) < suc fuel
      → (r : Connection × Bool) → Anything r
      → Ends Anything (elim r.1 [
        | true ↦
            read_data_from_in_buffer r.0 s >>= λ (p'', s'). loop (seen ++ p'' ∷ []) rest fd e_fd s'
        | false ↦ drop_client r.0 (record s { connections = seen ++ r.0 ∷ rest }) >>= λ s'.
            loop [] s'.connections fd e_fd s'
      ])
  read_step-Ends seen rest fd e_fd s e f (p, true) h =
      >>=-Ends Anything Anything (read_data_from_in_buffer p s) _
        (read_data_from_in_buffer-Ends p s) (λ (p', s') h'. go_on-Ends seen p' rest fd e_fd s' e f)
  read_step-Ends seen rest fd e_fd s e f (p, false) h = begin_anew-Ends seen p rest fd e_fd s e f

  write_step-Ends :
      (seen rest : List Connection) (fd e_fd : FdSet) (s : State)
      → n ≡ length seen + suc (length rest)
      → n * n + suc (length rest) < suc fuel
      → (r : Connection × Bool) → Anything r
      → Ends Anything (elim r.1 [
        | true ↦ loop (seen ++ r.0 ∷ []) rest fd e_fd s
        | false ↦ drop_client r.0 (record s { connections = seen ++ r.0 ∷ rest }) >>= λ s'.
            loop [] s'.connections fd e_fd s'
      ])
  write_step-Ends seen rest fd e_fd s e f (p, true) h = go_on-Ends seen p rest fd e_fd s e f
  write_step-Ends seen rest fd e_fd s e f (p, false) h = begin_anew-Ends seen p rest fd e_fd s e f

read_in_loop-Ends :
    (fuel n : ℕ) (recv : ℕ → Received) (seen todo : List Connection) (r_fd e_fd : FdSet) (s : State)
    → Bound fuel n seen todo
    → Ends Anything (read_in_loop fuel recv seen todo r_fd e_fd s)
unfolding read_in_loop
read_in_loop-Ends zero n recv seen todo r_fd e_fd s b = absurd (omega (arith, b.1))
read_in_loop-Ends (suc fuel) n recv seen [] r_fd e_fd s b = tt
read_in_loop-Ends (suc fuel) n recv seen (p ∷ rest) r_fd e_fd s b =
    >>=-Ends Anything Anything (read_ready p r_fd e_fd (recv p.socket)) _
      (read_ready-Ends p r_fd e_fd (recv p.socket))
      (read_step-Ends fuel n (read_in_loop fuel recv) (λ k. read_in_loop-Ends fuel k recv) seen rest
        _ _ s b.0 b.1)

write_in_loop-Ends :
    (fuel n : ℕ) (send : ℕ → Sent) (seen todo : List Connection) (w_fd e_fd : FdSet) (s : State)
    → Bound fuel n seen todo
    → Ends Anything (write_in_loop fuel send seen todo w_fd e_fd s)
unfolding write_in_loop
write_in_loop-Ends zero n send seen todo w_fd e_fd s b = absurd (omega (arith, b.1))
write_in_loop-Ends (suc fuel) n send seen [] w_fd e_fd s b = tt
write_in_loop-Ends (suc fuel) n send seen (p ∷ rest) w_fd e_fd s b =
    >>=-Ends Anything Anything (write_ready p w_fd e_fd (send p.socket)) _
      (write_ready-Ends p w_fd e_fd (send p.socket))
      (write_step-Ends fuel n (write_in_loop fuel send) (λ k. write_in_loop-Ends fuel k send) seen
        rest _ _ s b.0 b.1)

-- The loop of the reading thread over the clients comes to its end within the rounds given,
-- whatever the operating system answers and however often a client is dropped and the loop begins
-- anew: the run returns, or an assertion fails. `shutdown_connection` counts as one call here.
pub read_in_socket-Ends :
    (recv : ℕ → Received) (r_fd e_fd : FdSet) (s : State)
    → read_in_socket recv r_fd e_fd s ≢ out_of_fuel
unfolding read_in_socket
read_in_socket-Ends recv r_fd e_fd s = not_out_of_fuel (read_in_socket recv r_fd e_fd s) (
    read_in_loop-Ends (rounds (length s.connections)) (length s.connections) recv [] s.connections
      r_fd e_fd s (omega arith, omega arith))

-- The loop of the writing thread over the clients comes to its end within the rounds given,
-- whatever the operating system answers and however often a client is dropped and the loop begins
-- anew: the run returns, or an assertion fails. `shutdown_connection` counts as one call here.
write_in_socket-Ends :
    (send : ℕ → Sent) (w_fd e_fd : FdSet) (s : State)
    → write_in_socket send w_fd e_fd s ≢ out_of_fuel
unfolding write_in_socket
write_in_socket-Ends send w_fd e_fd s = not_out_of_fuel (write_in_socket send w_fd e_fd s) (
    write_in_loop-Ends (rounds (length s.connections)) (length s.connections) send [] s.connections
      w_fd e_fd s (omega arith, omega arith))
