-- ===== src/Peers/Server.antt =====
-- What test_server/server.c still holds when `main` returns.
use muxer.Base.{
  ℕ, ◌==◌, ◌≡◌, refl, Bool, true, false, List, [], ◌∷◌, Option, none, some, Ends, >>=-Ends, eq_refl,
  ◌⊎◌, Bool-cases, inl, inr,
}
use muxer.Protocol.{Codec}
use muxer.Dispatcher.Buffers.{Received, received, recv_error}
use muxer.Peers.{Call, serve_round, receive_pdus}
use muxer.Peers.Ledger.{Held, nothing, after, coding_failed, IsTalk, IsOver, continue_with-IsOver}
use muxer.Peers.Talking.{serve_round-IsTalk}
use muxer.Peers.Mains.{
  ServerRun, server_loop, server_end, server_accepted, server_listen, server_main,
}
use muxer.Peers.Closing.{holding, left_over, Closed, server_end-Closed}

-- The peer closes the connection in the end, or `recv` fails.
abbrev pub Shuts : List (Received × (ℕ → Bool)) → Type 0
Shuts [] = ⊥
Shuts ((received [], send) ∷ later) = Unit
Shuts ((received (b ∷ bytes), send) ∷ later) = Shuts later
Shuts ((recv_error err, send) ∷ later) = Unit

-- `accept` gives another socket than the one it is called on.
abbrev pub IsAccepted : Option ℕ → Option ℕ → Type 0
IsAccepted none client_socket = Unit
IsAccepted (some listen_socket) none = Unit
IsAccepted (some listen_socket) (some client_socket) = (client_socket == listen_socket) ≡ false

module _ (codec : Codec) where
  server_loop-IsOver :
      (rounds : List (Received × (ℕ → Bool)))
      → Shuts rounds
      → Ends IsOver (server_loop codec rounds)
  unfolding server_loop serve_round receive_pdus
  server_loop-IsOver [] ends = absurd ends
  server_loop-IsOver ((received [], send) ∷ later) ends = ((λ h. refl), refl)
  server_loop-IsOver ((received (b ∷ bytes), send) ∷ later) ends =
      >>=-Ends IsTalk IsOver (serve_round codec send (received (b ∷ bytes))) _
        (serve_round-IsTalk codec send (received (b ∷ bytes)))
        (λ step talk. continue_with-IsOver step _ talk (server_loop-IsOver later ends))
  server_loop-IsOver ((recv_error err, send) ∷ later) ends = ((λ h. refl), refl)

-- What is held of the sockets after a run.
abbrev accepted_socket : Option ℕ → List ℕ
accepted_socket none = []
accepted_socket (some client_socket) = client_socket ∷ []

-- What is held after the calls: winsock and the accepted socket if the codec failed, which gives
-- exit code 1.
abbrev pub Released : Held → Option ℕ → List Call × ℕ → Type 0
Released start client_socket (calls, code) =
    (after calls start ≡ left_over calls (accepted_socket client_socket))
    × ((coding_failed calls ≡ false) ⊎ (code ≡ 1))

module _ (codec : Codec) (run : ServerRun) (ends : Shuts run.rounds) where
  server_accepted-Released :
      (listen_socket : ℕ) (client_socket : Option ℕ)
      → IsAccepted (some listen_socket) client_socket
      → Ends
          (Released (holding (listen_socket ∷ [])) client_socket)
          (server_accepted codec run listen_socket client_socket)
  unfolding server_accepted
  server_accepted-Released listen_socket none accepted = rw (eq_refl listen_socket) (refl, inl refl)
  server_accepted-Released listen_socket (some client_socket) accepted =
      >>=-Ends IsOver (Released (holding (listen_socket ∷ [])) (some client_socket))
        (server_loop codec run.rounds) _ (server_loop-IsOver codec run.rounds ends)
        (λ step over.
          >>=-Ends (Closed client_socket)
            (Released (holding (listen_socket ∷ [])) (some client_socket))
            (server_end client_socket run.shutdown_ok step) _
            (server_end-Closed client_socket run.shutdown_ok step over)
            (λ (calls, code) closed. rw (accepted, eq_refl listen_socket) closed))

  server_listen-Released :
      (listen_socket : Option ℕ)
      → IsAccepted listen_socket run.client_socket
      → Ends
          (Released (record { winsock = true; addresses = true; sockets = [] }) run.client_socket)
          (server_listen codec run listen_socket)
  unfolding server_listen
  server_listen-Released none accepted = (refl, inl refl)
  server_listen-Released (some listen_socket) accepted = elim (Bool-cases run.bind_ok) [
    | inl bound ↦ elim (Bool-cases run.listen_ok) [
      | inl listening ↦
          rw (bound, listening)
            (>>=-Ends (Released (holding (listen_socket ∷ [])) run.client_socket)
              (Released (record { winsock = true; addresses = true; sockets = [] })
                run.client_socket)
              (server_accepted codec run listen_socket run.client_socket) _
              (server_accepted-Released listen_socket run.client_socket accepted)
              (λ (calls, code) released. released))
      | inr deaf ↦ rw (bound, deaf, eq_refl listen_socket) (refl, inl refl)
    ]
    | inr unbound ↦ rw (unbound, eq_refl listen_socket) (refl, inl refl)
  ]

  -- If the peer closes in the end, or `recv` fails, and `accept` gives another socket than the
  -- listener, then the test server ends, or fails an assertion, and when it returns it holds
  -- nothing, unless an encoder or decoder came back with an error: then it returns 1 with winsock
  -- up and exactly the accepted socket open.
  pub server_main-Released :
      IsAccepted run.listen_socket run.client_socket
      → Ends (Released nothing run.client_socket) (server_main codec run)
  unfolding server_main
  server_main-Released accepted = elim (Bool-cases (run.startup == 0)) [
    | inl up ↦ elim (Bool-cases run.resolved_ok) [
      | inl known ↦
          rw (up, known)
            (>>=-Ends
              (Released (record { winsock = true; addresses = true; sockets = [] })
                run.client_socket)
              (Released nothing run.client_socket) (server_listen codec run run.listen_socket) _
              (server_listen-Released run.listen_socket accepted)
              (λ (calls, code) released. released))
      | inr unknown ↦ rw (up, unknown) (refl, inl refl)
    ]
    | inr down ↦ rw down (refl, inl refl)
  ]
