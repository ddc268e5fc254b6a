-- ===== src/Peers/Mains.antt =====
-- `main` of test_client/client.c and of test_server/server.c: setting the connection up, the main
-- loop, and the shutdown. What the calls into winsock come back with are arguments.
use muxer.Base.{
  ℕ, suc, ◌==◌, Bool, List, [], ◌∷◌, ◌++◌, if◌then◌else◌, Option, none, some, Outcome, ok,
  out_of_fuel, ◌>>=◌,
}
use muxer.State.{invalid_socket}
use muxer.Protocol.{Codec}
use muxer.Dispatcher.Buffers.{Received, received, recv_error}
use muxer.Peers.{
  Call, started, cleaned_up, resolved, freed, opened, closed, shut, Step, goes_on, leaves, fails,
  gives_up, continue_with, serve_round, client_round,
}

-- What comes of one of the server's addresses: `socket` fails, `connect` on the new socket fails,
-- or the new socket is connected.
pub data Target : Type 0 where
  no_socket : Target
  refused : ℕ → Target
  connected : ℕ → Target

-- The client's loop over the addresses. The value of `ConnectSocket` after it; `none` if the
-- program has returned 1.
unfoldable pub connect_each : List Target → ℕ → List Call × Option ℕ
connect_each [] connect_socket = ([], some connect_socket)
connect_each (no_socket ∷ rest) connect_socket = (cleaned_up ∷ [], none)
connect_each (refused new ∷ rest) connect_socket =
    let (calls, found) = connect_each rest invalid_socket in
    (opened new ∷ closed new ∷ calls, found)
connect_each (connected new ∷ rest) connect_socket = (opened new ∷ [], some new)

-- "Receive until the peer closes the connection"; the answers of `recv`, in order.
unfoldable pub drain : List Received → Outcome (Unit {0})
drain [] = out_of_fuel
drain (received [] ∷ later) = ok tt
drain (received (b ∷ bytes) ∷ later) = drain later
drain (recv_error err ∷ later) = ok tt

-- `closesocket` and `WSACleanup`.
abbrev pub close_down : ℕ → List Call
close_down socket = closed socket ∷ cleaned_up ∷ []

-- A round of the client: whether `send` succeeds, and what `recv` brings.
pub record Exchange : Type 0 where
  pub send : Bool
  pub recv : Received

-- A client's run: the results of `WSAStartup` and `getaddrinfo` (`none` if it fails), the rounds
-- until Ctrl-C, `shutdown`, and what is left to be received.
pub record ClientRun : Type 0 where
  pub startup : ℕ
  pub targets : Option (List Target)
  pub first : Exchange
  pub more : List Exchange
  pub shutdown_ok : Bool
  pub remaining : List Received

-- A server's run: the results of `WSAStartup`, `getaddrinfo`, `socket`, `bind`, `listen` and
-- `accept` (`none` if a call gives no socket), and the rounds, each with what `recv` brings and
-- with the results of its `send`s.
pub record ServerRun : Type 0 where
  pub startup : ℕ
  pub resolved_ok : Bool
  pub listen_socket : Option ℕ
  pub bind_ok : Bool
  pub listen_ok : Bool
  pub client_socket : Option ℕ
  pub rounds : List (Received × (ℕ → Bool))
  pub shutdown_ok : Bool

-- What the client does after its loop, with the value that `main` returns.
unfoldable pub client_end : ℕ → Bool → List Received → Step → Outcome (List Call × ℕ)
unfolding drain
client_end socket shutdown_ok remaining (calls, goes_on) = out_of_fuel
client_end socket shutdown_ok remaining (calls, gives_up) = ok (calls, 1)
client_end socket shutdown_ok remaining (calls, fails) = ok (calls ++ close_down socket, 1)
client_end socket shutdown_ok remaining (calls, leaves) =
    if shutdown_ok
    then (do _ ← drain remaining; ok (calls ++ shut socket ∷ close_down socket, 0))
    else ok (calls ++ close_down socket, 1)

-- What the server does after its loop.
unfoldable pub server_end : ℕ → Bool → Step → Outcome (List Call × ℕ)
server_end socket shutdown_ok (calls, goes_on) = out_of_fuel
server_end socket shutdown_ok (calls, gives_up) = ok (calls, 1)
server_end socket shutdown_ok (calls, fails) = ok (calls ++ close_down socket, 1)
server_end socket shutdown_ok (calls, leaves) = ok (
    if shutdown_ok
    then (calls ++ shut socket ∷ close_down socket, 0)
    else (calls ++ close_down socket, 1))

module _ (codec : Codec) where
  -- The client's main loop; `isActive` is reset after the last round.
  unfoldable pub client_loop : ℕ → Exchange → List Exchange → Outcome Step
  unfolding client_round
  client_loop send_invokeid now [] = do
    step ← client_round codec (suc send_invokeid) now.send now.recv
    continue_with step (ok ([], leaves))
  client_loop send_invokeid now (next ∷ later) = do
    step ← client_round codec (suc send_invokeid) now.send now.recv
    continue_with step (client_loop (suc send_invokeid) next later)

  -- The client once it has been through the addresses.
  unfoldable pub client_talk : ClientRun → List Call × Option ℕ → Outcome (List Call × ℕ)
  unfolding client_loop client_end
  client_talk run (calls, none) = ok (calls, 1)
  client_talk run (calls, some connect_socket) =
      if connect_socket == invalid_socket then ok (calls ++ freed ∷ cleaned_up ∷ [], 1) else (do
        step ← client_loop 0 run.first run.more
        (more, code) ← client_end connect_socket run.shutdown_ok run.remaining step
        ok (calls ++ freed ∷ more, code))

  unfoldable pub client_resolved : ClientRun → Option (List Target) → Outcome (List Call × ℕ)
  unfolding connect_each client_talk
  client_resolved run none = ok (cleaned_up ∷ [], 1)
  client_resolved run (some targets) = do
    (calls, code) ← client_talk run (connect_each targets invalid_socket)
    ok (resolved ∷ calls, code)

  -- `main` of the client.
  unfoldable pub client_main : ClientRun → Outcome (List Call × ℕ)
  unfolding client_resolved
  client_main run =
      if run.startup == 0
      then (do (calls, code) ← client_resolved run run.targets; ok (started ∷ calls, code))
      else ok ([], 1)

  -- The server's main loop, until the peer shuts the connection down.
  unfoldable pub server_loop : List (Received × (ℕ → Bool)) → Outcome Step
  unfolding serve_round
  server_loop [] = out_of_fuel
  server_loop ((recv, send) ∷ later) = do
    step ← serve_round codec send recv
    continue_with step (server_loop later)

  -- The server with the result of `accept`.
  unfoldable pub server_accepted : ServerRun → ℕ → Option ℕ → Outcome (List Call × ℕ)
  unfolding server_loop server_end
  server_accepted run listen_socket none = ok (close_down listen_socket, 1)
  server_accepted run listen_socket (some client_socket) = do
    step ← server_loop run.rounds
    (calls, code) ← server_end client_socket run.shutdown_ok step
    ok (opened client_socket ∷ closed listen_socket ∷ calls, code)

  -- The server with the result of `socket`.
  unfoldable pub server_listen : ServerRun → Option ℕ → Outcome (List Call × ℕ)
  unfolding server_accepted
  server_listen run none = ok (freed ∷ cleaned_up ∷ [], 1)
  server_listen run (some listen_socket) =
      if run.bind_ok
      then (if run.listen_ok
          then (do
            (calls, code) ← server_accepted run listen_socket run.client_socket
            ok (opened listen_socket ∷ freed ∷ calls, code))
          else ok (opened listen_socket ∷ freed ∷ close_down listen_socket, 1))
      else ok (opened listen_socket ∷ freed ∷ close_down listen_socket, 1)

  -- `main` of the server.
  unfoldable pub server_main : ServerRun → Outcome (List Call × ℕ)
  unfolding server_listen
  server_main run =
      if run.startup == 0
      then (if run.resolved_ok
          then (do
            (calls, code) ← server_listen run run.listen_socket
            ok (started ∷ resolved ∷ calls, code))
          else ok (started ∷ cleaned_up ∷ [], 1))
      else ok ([], 1)
