-- ===== src/Peers/Closing.antt =====
-- What the test programs still hold when they have left the main loop.
use muxer.Base.{
  ℕ, ◌≡◌, refl, ◌∙◌, Bool, true, false, List, [], ◌∷◌, ◌++◌, if◌then◌else◌, Ends, >>=-Ends, eq_refl,
  ◌⊎◌, inl, inr,
}
use muxer.Dispatcher.Buffers.{Received, received, recv_error}
use muxer.Dispatcher.Endings.{Anything}
use muxer.Peers.{Call, shut, Step, goes_on, leaves, fails, gives_up}
use muxer.Peers.Ledger.{
  Held, nothing, after, coding_failed, IsOver, after-append, coding_failed-append,
}
use muxer.Winsock.{Closes}
use muxer.Peers.Mains.{drain, close_down, client_end, server_end}

drain-Ends : (remaining : List Received) → Closes remaining → Ends Anything (drain remaining)
unfolding drain
drain-Ends [] h = absurd h
drain-Ends (received [] ∷ later) h = tt
drain-Ends (received (b ∷ bytes) ∷ later) h = drain-Ends later h
drain-Ends (recv_error err ∷ later) h = tt

-- Winsock, and the sockets.
abbrev pub holding : List ℕ → Held
holding sockets = record { winsock = true; addresses = false; sockets = sockets }

-- After a run with these calls: all is given back, unless the codec failed; the exit code is 1 then.
abbrev pub left_over : List Call → List ℕ → Held
left_over calls sockets = record {
  winsock = coding_failed calls;
  addresses = false;
  sockets = if coding_failed calls then sockets else [];
}

abbrev pub Closed : ℕ → List Call × ℕ → Type 0
Closed socket (calls, code) =
    (after calls (holding (socket ∷ [])) ≡ left_over calls (socket ∷ []))
    × ((coding_failed calls ≡ false) ⊎ (code ≡ 1))

closes_down :
    (socket : ℕ) (calls last : List Call) (code : ℕ)
    → ((h : Held) → after calls h ≡ h)
    → coding_failed calls ≡ false
    → coding_failed last ≡ false
    → after last (holding (socket ∷ [])) ≡ nothing
    → Closed socket (calls ++ last, code)
closes_down socket calls last code keeps fine fine' gone =
    let none : coding_failed (calls ++ last) ≡ false =
      coding_failed-append calls last ∙ (rw fine fine') in
    rw none (
      after-append calls last (holding (socket ∷ [])) ∙ (rw (keeps (holding (socket ∷ []))) gone),
      inl refl,
    )

stays_open :
    (socket : ℕ) (calls : List Call)
    → ((h : Held) → after calls h ≡ h)
    → coding_failed calls ≡ true
    → Closed socket (calls, 1)
stays_open socket calls keeps bad = rw bad (keeps (holding (socket ∷ [])), inr refl)

close_down_lem : (socket : ℕ) → after (close_down socket) (holding (socket ∷ [])) ≡ nothing
close_down_lem socket = rw (eq_refl socket) refl

pub client_end-Closed :
    (socket : ℕ) (shutdown_ok : Bool) (remaining : List Received) (step : Step)
    → Closes remaining
    → IsOver step
    → Ends (Closed socket) (client_end socket shutdown_ok remaining step)
unfolding client_end
client_end-Closed socket down remaining (calls, goes_on) h over = absurd over
client_end-Closed socket down remaining (calls, gives_up) h over =
    stays_open socket calls over.0 over.1
client_end-Closed socket down remaining (calls, fails) h over =
    closes_down socket calls (close_down socket) 1 over.0 over.1 refl (close_down_lem socket)
client_end-Closed socket false remaining (calls, leaves) h over =
    closes_down socket calls (close_down socket) 1 over.0 over.1 refl (close_down_lem socket)
client_end-Closed socket true remaining (calls, leaves) h over =
    >>=-Ends Anything (Closed socket) (drain remaining) _ (drain-Ends remaining h) (λ _ k.
      closes_down socket calls (shut socket ∷ close_down socket) 0 over.0 over.1 refl
        (close_down_lem socket))

pub server_end-Closed :
    (socket : ℕ) (shutdown_ok : Bool) (step : Step)
    → IsOver step
    → Ends (Closed socket) (server_end socket shutdown_ok step)
unfolding server_end
server_end-Closed socket down (calls, goes_on) over = absurd over
server_end-Closed socket down (calls, gives_up) over = stays_open socket calls over.0 over.1
server_end-Closed socket down (calls, fails) over =
    closes_down socket calls (close_down socket) 1 over.0 over.1 refl (close_down_lem socket)
server_end-Closed socket false (calls, leaves) over =
    closes_down socket calls (close_down socket) 1 over.0 over.1 refl (close_down_lem socket)
server_end-Closed socket true (calls, leaves) over =
    closes_down socket calls (shut socket ∷ close_down socket) 0 over.0 over.1 refl
      (close_down_lem socket)
