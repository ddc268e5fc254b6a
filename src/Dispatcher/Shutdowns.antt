-- ===== src/Dispatcher/Shutdowns.antt =====
-- The loop of muxer/dispatcher.c over the ready clients, with what `shutdown_connection` of
-- common/winsock.c does on the sockets that are dropped. Nothing that `shutdown_connection` does
-- changes the program's state, so its calls stand behind the loop here, in their order.
use muxer.Base.{
  ℕ, ◌≢◌, refl, Bool, true, false, List, [], ◌∷◌, ◌++◌, Outcome, ok, abort, out_of_fuel, ◌>>=◌,
  Ends, >>=-Ends,
}
use muxer.State.{State}
use muxer.Winsock.{SocketCall, shutdown_socket, receive_extra, Closes}
use muxer.Startup.Steps.{receive_extra-Ends}
use muxer.Dispatcher.Buffers.{Received}
use muxer.Dispatcher.Sockets.{FdSet, read_in_socket}
use muxer.Dispatcher.Endings.{Anything}
use muxer.Dispatcher.Rounds.{not_out_of_fuel, read_in_socket-Ends}

-- What `shutdown`, `recv` and `closesocket` answer in the shutdown of a socket.
pub record Ending : Type 0 where
  pub shutdown_ok : Bool
  pub extra : List Received
  pub close_ok : Bool

-- The sockets are shut down one after the other.
unfoldable pub shut_each : (ℕ → Ending) → List ℕ → Outcome (List SocketCall)
unfolding shutdown_socket
shut_each ending [] = ok []
shut_each ending (socket ∷ rest) = do
  let e = ending socket
  (calls, _) ← shutdown_socket socket e.shutdown_ok e.extra e.close_ok
  later ← shut_each ending rest
  ok (calls ++ later)

-- `read_in_socket` with the shutdowns in it.
unfoldable pub read_and_shut :
    (ℕ → Received) → (ℕ → Ending) → FdSet → FdSet → State → Outcome (State × List SocketCall)
unfolding read_in_socket shut_each
read_and_shut recv ending r_fd e_fd s = do
  s' ← read_in_socket recv r_fd e_fd (record s { shut_down = [] })
  calls ← shut_each ending s'.shut_down
  ok (record s' { shut_down = s.shut_down ++ s'.shut_down }, calls)

Ends-of : {A : Type 0} (m : Outcome A) → m ≢ out_of_fuel → Ends Anything m
Ends-of (ok a) ends = tt
Ends-of abort ends = tt
Ends-of out_of_fuel ends = absurd (ends refl)

shutdown_socket-Ends :
    (socket : ℕ) (shutdown_ok : Bool) (extra : List Received) (close_ok : Bool)
    → Closes extra
    → Ends Anything (shutdown_socket socket shutdown_ok extra close_ok)
unfolding shutdown_socket
shutdown_socket-Ends socket false extra close_ok h = tt
shutdown_socket-Ends socket true extra close_ok h =
    >>=-Ends Anything Anything (receive_extra extra) _ (receive_extra-Ends extra h) (λ _ _. tt)

shut_each-Ends :
    (ending : ℕ → Ending) (sockets : List ℕ)
    → ((socket : ℕ) → Closes (ending socket).extra)
    → Ends Anything (shut_each ending sockets)
unfolding shut_each
shut_each-Ends ending [] h = tt
shut_each-Ends ending (socket ∷ rest) h =
    let e = ending socket in
    >>=-Ends Anything Anything (shutdown_socket socket e.shutdown_ok e.extra e.close_ok) _
      (shutdown_socket-Ends socket e.shutdown_ok e.extra e.close_ok (h socket))
      (λ _ _.
        >>=-Ends Anything Anything (shut_each ending rest) _ (shut_each-Ends ending rest h)
          (λ _ _. tt))

-- If every peer whose connection is shut down closes it in the end, or `recv` fails, then the loop
-- of the reading thread over the clients comes to its end within the rounds given, and with it
-- every `shutdown_connection` in it, whatever else the operating system answers and however often a
-- client is dropped and the loop begins anew: the run returns, or an assertion fails.
pub read_and_shut-Ends :
    (recv : ℕ → Received) (ending : ℕ → Ending) (r_fd e_fd : FdSet) (s : State)
    → ((socket : ℕ) → Closes (ending socket).extra)
    → read_and_shut recv ending r_fd e_fd s ≢ out_of_fuel
unfolding read_and_shut
read_and_shut-Ends recv ending r_fd e_fd s h =
    let begun : State = record s { shut_down = [] } in
    not_out_of_fuel (read_and_shut recv ending r_fd e_fd s) (
      >>=-Ends Anything Anything (read_in_socket recv r_fd e_fd begun) _
        (Ends-of (read_in_socket recv r_fd e_fd begun) (read_in_socket-Ends recv r_fd e_fd begun))
        (λ s' _.
          >>=-Ends Anything Anything (shut_each ending s'.shut_down) _
            (shut_each-Ends ending s'.shut_down h) (λ _ _. tt)))
