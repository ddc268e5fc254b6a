-- ===== src/Peers/Client.antt =====
-- What test_client/client.c still holds when `main` returns.
use muxer.Base.{
  ℕ, ◌==◌, ◌≡◌, refl, ◌∙◌, Bool, true, false, List, [], ◌∷◌, ◌++◌, if◌then◌else◌, Option, none,
  some, Ends, >>=-Ends, All, eq_refl, ◌⊎◌, Bool-cases, inl, inr,
}
use muxer.State.{invalid_socket}
use muxer.Protocol.{Codec}
use muxer.Peers.{Call, freed, opened, closed, cleaned_up}
use muxer.Peers.Ledger.{
  Held, nothing, after, coding_failed, IsOver, after-append, coding_failed-append,
}
use muxer.Peers.Talking.{client_loop-IsOver}
use muxer.Peers.Mains.{
  Target, no_socket, refused, connected, connect_each, ClientRun, client_loop, client_end,
  client_talk, client_resolved, client_main,
}
use muxer.Winsock.{Closes}
use muxer.Peers.Closing.{holding, Closed, client_end-Closed}

abbrev pub listed : Option (List Target) → List Target
listed none = []
listed (some targets) = targets

-- The addresses that are tried.
abbrev pub targets_of : ClientRun → List Target
targets_of run = if run.startup == 0 then listed run.targets else []

-- The socket that is connected.
abbrev pub first_connected : List Target → List ℕ
first_connected [] = []
first_connected (no_socket ∷ rest) = []
first_connected (refused new ∷ rest) = first_connected rest
first_connected (connected new ∷ rest) = new ∷ []

-- `socket` fails before an address could be connected to.
abbrev pub runs_out : List Target → Bool
runs_out [] = false
runs_out (no_socket ∷ rest) = true
runs_out (refused new ∷ rest) = runs_out rest
runs_out (connected new ∷ rest) = false

-- A socket is not the value that says that there is none.
abbrev pub IsSocket : Target → Type 0
IsSocket no_socket = Unit
IsSocket (refused new) = Unit
IsSocket (connected new) = (new == invalid_socket) ≡ false

-- Winsock, the addresses, and the sockets.
abbrev trying : List ℕ → Held
trying sockets = record { winsock = true; addresses = true; sockets = sockets }

abbrev Attempted : List Target → List Call × Option ℕ → Type 0
Attempted targets (calls, none) =
    (runs_out targets ≡ true)
    × (coding_failed calls ≡ false)
    × (after calls (trying []) ≡ record { winsock = false; addresses = true; sockets = [] })
Attempted targets (calls, some socket) =
    (runs_out targets ≡ false)
    × (coding_failed calls ≡ false)
    × (((socket ≡ invalid_socket)
          × (first_connected targets ≡ [])
          × (after calls (trying []) ≡ trying []))
        ⊎ (((socket == invalid_socket) ≡ false)
            × (first_connected targets ≡ socket ∷ [])
            × (after calls (trying []) ≡ trying (socket ∷ []))))

refused-Attempted :
    (new : ℕ) (rest : List Target) (tried : List Call × Option ℕ)
    → Attempted rest tried
    → Attempted (refused new ∷ rest) (opened new ∷ closed new ∷ tried.0, tried.1)
refused-Attempted new rest (calls, none) h = rw (eq_refl new) h
refused-Attempted new rest (calls, some socket) h = rw (eq_refl new) h

connect_each-Attempted :
    (targets : List Target)
    → All IsSocket targets
    → Attempted targets (connect_each targets invalid_socket)
unfolding connect_each
connect_each-Attempted [] h = (refl, refl, inl (refl, refl, refl))
connect_each-Attempted (no_socket ∷ rest) h = (refl, refl, refl)
connect_each-Attempted (refused new ∷ rest) h =
    refused-Attempted new rest (connect_each rest invalid_socket) (connect_each-Attempted rest h.1)
connect_each-Attempted (connected new ∷ rest) h = (refl, refl, inr (h.0, refl, refl))

-- What is held after the calls: winsock and the connected socket if the codec failed, which gives
-- exit code 1, and the addresses if `socket` failed before one could be connected to.
abbrev pub Settled : Held → List Target → List Call × ℕ → Type 0
Settled start targets (calls, code) =
    (after calls start ≡ record {
      winsock = coding_failed calls;
      addresses = runs_out targets;
      sockets = if coding_failed calls then first_connected targets else [];
    })
    × ((coding_failed calls ≡ false) ⊎ (code ≡ 1))

module _ (codec : Codec) (run : ClientRun) (ends : Closes run.remaining) where
  client_talk-Settled :
      (targets : List Target) (tried : List Call × Option ℕ)
      → Attempted targets tried
      → Ends (Settled (trying []) targets) (client_talk codec run tried)
  unfolding client_talk
  client_talk-Settled targets (calls, none) (out, fine, held) = rw (fine, out) (held, inr refl)
  client_talk-Settled targets (calls, some socket) (out, fine, inl (e, _, held)) =
      let none_found : (socket == invalid_socket) ≡ true = rw e refl in
      let fine' : coding_failed (calls ++ freed ∷ cleaned_up ∷ []) ≡ false =
        coding_failed-append calls (freed ∷ cleaned_up ∷ []) ∙ (rw fine refl) in
      rw (none_found, fine', out)
        (after-append calls (freed ∷ cleaned_up ∷ []) (trying []) ∙ (rw held refl), inr refl)
  client_talk-Settled targets (calls, some socket) (out, fine, inr (found, e, held)) = rw found (
      >>=-Ends IsOver (Settled (trying []) targets) (client_loop codec 0 run.first run.more) _
        (client_loop-IsOver codec 0 run.first run.more)
        (λ step over.
          >>=-Ends (Closed socket) (Settled (trying []) targets)
            (client_end socket run.shutdown_ok run.remaining step) _
            (client_end-Closed socket run.shutdown_ok run.remaining step ends over)
            (λ (more, code) (kept, code_lem).
              let same : coding_failed (calls ++ freed ∷ more) ≡ coding_failed more =
                coding_failed-append calls (freed ∷ more) ∙ (rw fine refl) in
              rw (same, out, e)
                (after-append calls (freed ∷ more) (trying []) ∙ (rw held kept), code_lem))))

  client_resolved-Settled :
      (targets : Option (List Target))
      → All IsSocket (listed targets)
      → Ends (Settled (holding []) (listed targets)) (client_resolved codec run targets)
  unfolding client_resolved
  client_resolved-Settled none sockets = (refl, inl refl)
  client_resolved-Settled (some targets) sockets =
      >>=-Ends (Settled (trying []) targets) (Settled (holding []) targets)
        (client_talk codec run (connect_each targets invalid_socket)) _
        (client_talk-Settled targets (connect_each targets invalid_socket)
          (connect_each-Attempted targets sockets))
        (λ (calls, code) settled. settled)

  -- If the peer closes in the end, or `recv` fails, and no connected socket is INVALID_SOCKET, then
  -- the test client ends, or fails an assertion, and when it returns it holds nothing, with two
  -- exceptions: if an encoder or decoder came back with an error, it returns 1 with winsock up and
  -- exactly the connected socket open; if `socket` failed before an address could be connected to,
  -- the list of addresses is not freed.
  pub client_main-Settled :
      All IsSocket (targets_of run)
      → Ends (Settled nothing (targets_of run)) (client_main codec run)
  unfolding client_main
  client_main-Settled sockets = elim (Bool-cases (run.startup == 0)) [
    | inl up ↦ rw up (
        >>=-Ends (Settled (holding []) (listed run.targets)) (Settled nothing (listed run.targets))
          (client_resolved codec run run.targets) _
          (client_resolved-Settled run.targets (rw up at sockets))
          (λ (calls, code) settled. settled))
    | inr down ↦ rw down (refl, inl refl)
  ]
