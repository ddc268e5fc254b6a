-- ===== src/Startup/Steps.antt =====
-- The parts of `main` of muxer/dispatcher.c, as acts that the operating system allows.
use muxer.Base.{
  ℕ, ◌==◌, ◌&&◌, Bool, true, false, List, [], ◌∷◌, ◌++◌, ◌≡◌, refl, ◌∙◌, if◌then◌else◌, Option,
  none, some, Ends, ok, ap, sym, append_assoc, >>=-Ends, eq_refl, Bool-cases, inl, inr,
}
use muxer.State.{invalid_socket}
use muxer.Config.{Config}
use muxer.Dispatcher.Buffers.{Received, received, recv_error}
use muxer.Dispatcher.Endings.{Anything}
use muxer.Handshake.{processing, comm_write, comm_read}
use muxer.Winsock.{SocketCall, send_closed, socket_closed, shutdown_socket, receive_extra, Closes}
use muxer.Startup.{
  Os, Act, Handle, Thread, start_threads, do_cleanup, process_data, new_message, thread_started,
  thread_stopped, thread_ended, cleaner, worker, wait_for_cleanup, close_socket, open_socket,
  bind_socket, listen_on, wait_for, cleanup_ended, wsa_cleanup, init_critical_sections,
  create_events, spawn_threads, delete_critical_sections, stored_addr, inaddr_none, bind_listener,
  setup_listener_socket, open_listener_socket, end_socket_acts, main_loop,
}
use muxer.Startup.Machine.{Machine, idle, play, play-append, done}

-- `socket` gives no socket that looks like none.
abbrev pub IsSocketAnswer : Option ℕ → Type 0
IsSocketAnswer none = Unit
IsSocketAnswer (some sd) = (sd == invalid_socket) ≡ false

abbrev socket_list : Option ℕ → List ℕ
socket_list none = []
socket_list (some sd) = sd ∷ []

abbrev bound_socket : Bool → Option ℕ → Option ℕ
bound_socket bind_ok none = none
bound_socket bind_ok (some sd) = if bind_ok then some sd else none

module _ (os : Os) (config : Config) where
  abbrev pub addr_of : ℕ
  addr_of = stored_addr os (os.inet_pton config.connection_in.ip)

  abbrev pub port_of : ℕ
  port_of = os.htons config.connection_in.port

  -- The sockets that are opened for the listener, and the listener if it comes to listen.
  abbrev pub opened_sockets : List ℕ
  opened_sockets = if addr_of == inaddr_none then [] else socket_list os.socket

  abbrev pub listener_found : Option ℕ
  listener_found =
      if addr_of == inaddr_none then none else bound_socket (os.bind addr_of port_of) os.socket

  abbrev pub listener : Option ℕ
  listener = if os.startup == 0 then listener_found else none

-- The sections and the events, with `h_event_start_threads` signalled.
abbrev pub ready : Bool → List ℕ → Machine
ready winsock sockets = record {
  sections = 8 ∷ 7 ∷ 6 ∷ 5 ∷ 4 ∷ 3 ∷ 2 ∷ 1 ∷ 0 ∷ [];
  events = 13 ∷ 12 ∷ 11 ∷ 10 ∷ 9 ∷ 8 ∷ 7 ∷ 6 ∷ 5 ∷ 4 ∷ 3 ∷ 2 ∷ 1 ∷ 0 ∷ [];
  signalled = 0 ∷ [];
  winsock = winsock;
  sockets = sockets;
  bound = [];
  listening = [];
  threads = [];
}

-- The listener is bound, and listens if `listen` succeeded.
abbrev pub listening_on : Bool → ℕ → Machine
listening_on listens sd = record (ready true (sd ∷ [])) {
  bound = sd ∷ [];
  listening = if listens then sd ∷ [] else [];
}

abbrev waiting_on : Bool → ℕ → Machine
waiting_on listens sd = record (listening_on listens sd) { threads = 1 ∷ 2 ∷ 3 ∷ 0 ∷ [] }

-- Every event and every thread can be created, and the cleanup thread sets the event that `main`
-- waits for.
pub record IsProvided (os : Os) : Type 0 where
  pub events : (h : Handle) → os.event_ok h ≡ true
  pub threads : (t : Thread) → os.thread_ok t ≡ true
  pub cleanup : os.is_cleanup_ended ≡ true

module _ (os : Os) (provided : IsProvided os) where
  pub play_setup : play (init_critical_sections ++ create_events os) idle ≡ some (ready false [])
  unfolding init_critical_sections create_events
  play_setup =
      rw
        (
          provided.events start_threads,
          provided.events do_cleanup,
          provided.events cleanup_ended,
          provided.events process_data,
          provided.events new_message,
          provided.events (thread_started processing),
          provided.events (thread_started comm_write),
          provided.events (thread_started comm_read),
          provided.events (thread_stopped processing),
          provided.events (thread_stopped comm_write),
          provided.events (thread_stopped comm_read),
          provided.events (thread_ended processing),
          provided.events (thread_ended comm_write),
          provided.events (thread_ended comm_read),
        )
        refl

  play_spawn :
      (listens : Bool) (sd : ℕ)
      → play (spawn_threads os ++ wait_for cleanup_ended ∷ []) (listening_on listens sd)
        ≡ some (waiting_on listens sd)
  unfolding spawn_threads
  play_spawn listens sd =
      rw
        (
          provided.threads cleaner,
          provided.threads (worker comm_read),
          provided.threads (worker comm_write),
          provided.threads (worker processing),
          provided.events start_threads,
        )
        refl

  wait_for_cleanup_lem : wait_for_cleanup os ≡ ok (wait_for cleanup_ended ∷ [])
  unfolding wait_for_cleanup
  wait_for_cleanup_lem = rw (provided.events cleanup_ended, provided.cleanup) refl

play_listen :
    (listens : Bool) (sd addr port : ℕ)
    → play
        (close_socket 0
          ∷ open_socket sd
          ∷ bind_socket sd addr port
          ∷ (if listens then listen_on sd ∷ [] else []))
        (ready true [])
      ≡ some (listening_on listens sd)
play_listen true sd addr port = rw (eq_refl sd) refl
play_listen false sd addr port = rw (eq_refl sd) refl

-- The state in which the program ends: a section is left, and the listener unless it was closed.
abbrev pub ended_on : Bool → Bool → ℕ → Machine
ended_on closed listens sd = record (waiting_on listens sd) {
  sections = 1 ∷ [];
  winsock = false;
  sockets = if closed then [] else sd ∷ [];
  bound = if closed then [] else sd ∷ [];
  listening = if closed then [] else (if listens then sd ∷ [] else []);
}

pub receive_extra-Ends :
    (extra : List Received) → Closes extra → Ends Anything (receive_extra extra)
unfolding receive_extra
receive_extra-Ends [] h = absurd h
receive_extra-Ends (received [] ∷ later) h = tt
receive_extra-Ends (received (b ∷ bytes) ∷ later) h = receive_extra-Ends later h
receive_extra-Ends (recv_error err ∷ later) h = tt

abbrev Shut : ℕ → Bool → Bool → List SocketCall × Bool → Type 0
Shut sd listens closed (calls, done) =
    play (end_socket_acts calls ++ (delete_critical_sections ++ wsa_cleanup ∷ []))
      (waiting_on listens sd)
    ≡ some (ended_on closed listens sd)

closing :
    (sd : ℕ) (listens : Bool) → Shut sd listens true (send_closed sd ∷ socket_closed sd ∷ [], true)
unfolding delete_critical_sections
closing sd true = rw (eq_refl sd) refl
closing sd false = rw (eq_refl sd) refl

shutdown_socket-Shut :
    (sd : ℕ) (listens shutdown_ok : Bool) (extra : List Received) (close_ok : Bool)
    → Closes extra
    → Ends
        (Shut sd listens (shutdown_ok && close_ok))
        (shutdown_socket sd shutdown_ok extra close_ok)
unfolding shutdown_socket delete_critical_sections
shutdown_socket-Shut sd listens false extra close_ok h = refl
shutdown_socket-Shut sd listens true extra true h =
    >>=-Ends Anything (Shut sd listens true) (receive_extra extra) _ (receive_extra-Ends extra h)
      (λ _ k. closing sd listens)
shutdown_socket-Shut sd listens true extra false h =
    >>=-Ends Anything (Shut sd listens false) (receive_extra extra) _ (receive_extra-Ends extra h)
      (λ _ k. rw (eq_refl sd) refl)

abbrev pub Ended : Machine → Machine → ℕ → List Act × ℕ → Type 0
Ended from to exit_code (acts, code) = (play acts from ≡ some to) × (code ≡ exit_code)

module _ (os : Os) (provided : IsProvided os) where
  pub main_loop-Ended :
      (sd : ℕ)
      → Closes os.extra
      → Ends
          (Ended
            (listening_on os.listen_ok sd)
            (ended_on (os.shutdown_ok && os.close_ok) os.listen_ok sd)
            0)
          (main_loop os sd)
  unfolding main_loop
  main_loop-Ended sd h =
      let closed = os.shutdown_ok && os.close_ok in
      let listens = os.listen_ok in
      rw (main_loop, wait_for_cleanup_lem os provided)
        (>>=-Ends (Shut sd listens closed)
          (Ended (listening_on listens sd) (ended_on closed listens sd) 0)
          (shutdown_socket sd os.shutdown_ok os.extra os.close_ok) _
          (shutdown_socket-Shut sd listens os.shutdown_ok os.extra os.close_ok h)
          (λ (calls, _) shut. (
            ap (λ acts. play acts (listening_on listens sd))
                  (sym (
                    append_assoc (spawn_threads os) (wait_for cleanup_ended ∷ [])
                      (end_socket_acts calls ++ (delete_critical_sections ++ wsa_cleanup ∷ []))))
                ∙ play-append (spawn_threads os ++ wait_for cleanup_ended ∷ [])
                    (end_socket_acts calls ++ (delete_critical_sections ++ wsa_cleanup ∷ []))
                    (listening_on listens sd) (waiting_on listens sd)
                    (play_spawn os provided listens sd)
                ∙ shut,
            refl,
          )))

-- What `open_listener_socket` comes to, with the sockets that are open then.
abbrev pub Opened : Bool → Option ℕ → List ℕ → List Act × Option ℕ → Type 0
Opened listens expected sockets (acts, none) =
    (expected ≡ none) × (play acts (ready true []) ≡ some (ready true sockets))
Opened listens expected sockets (acts, some sd) =
    (expected ≡ some sd) × (play acts (ready true []) ≡ some (listening_on listens sd))

abbrev found_in : List Act × ℕ → List Act × Option ℕ
found_in (acts, socket) =
    (close_socket 0 ∷ acts, if socket == invalid_socket then none else some socket)

bind_listener-Opened :
    (os : Os) (addr port : ℕ) (socket : Option ℕ)
    → IsSocketAnswer socket
    → Opened os.listen_ok
        (bound_socket (os.bind addr port) socket)
        (socket_list socket)
        (found_in (bind_listener os addr port socket))
unfolding bind_listener
bind_listener-Opened os addr port none valid = (refl, refl)
bind_listener-Opened os addr port (some sd) valid = elim (Bool-cases (os.bind addr port)) [
  | inl bound ↦ rw (bound, valid) (refl, play_listen os.listen_ok sd addr port)
  | inr unbound ↦ rw unbound (refl, refl)
]

module _ (os : Os) (config : Config) (valid : IsSocketAnswer os.socket) where
  pub open_listener_socket-Opened :
      Opened os.listen_ok
        (listener_found os config)
        (opened_sockets os config)
        (open_listener_socket os config 0)
  unfolding open_listener_socket setup_listener_socket
  open_listener_socket-Opened = elim (Bool-cases (addr_of os config == inaddr_none)) [
    | inl bad ↦ rw bad (refl, refl)
    | inr good ↦
        rw good (bind_listener-Opened os (addr_of os config) (port_of os config) os.socket valid)
  ]
