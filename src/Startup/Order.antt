-- ===== src/Startup/Order.antt =====
-- `main` of muxer/dispatcher.c uses what it has made, and what it leaves behind.
use muxer.Base.{
  ℕ, ◌==◌, ◌&&◌, Bool, true, false, List, [], ◌∷◌, ◌++◌, ap, sym, append_assoc, refl, ◌∙◌,
  if◌then◌else◌, Option, none, some, Ends, >>=-Ends, Bool-cases, inl, inr,
}
use muxer.Config.{Config}
use muxer.Winsock.{Closes}
use muxer.Startup.{
  Os, Act, init_critical_sections, create_events, wsa_startup, open_listener_socket, main_loop,
  main_listening, dispatcher_main,
}
use muxer.Startup.Machine.{Machine, idle, play, play-append}
use muxer.Startup.Steps.{
  IsProvided, IsSocketAnswer, listener, listener_found, opened_sockets, ready, listening_on,
  ended_on, Ended, Opened, play_setup, main_loop-Ended, open_listener_socket-Opened,
}

abbrev pub exit_code : Option ℕ → ℕ
exit_code none = 1
exit_code (some sd) = 0

abbrev end_state : Bool → Bool → List ℕ → Option ℕ → Machine
end_state closed listens sockets none = ready true sockets
end_state closed listens sockets (some sd) = ended_on closed listens sd

-- With the listener, if there is one: the state in which the program ends.
abbrev pub final : Os → Config → Machine
final os config =
    if os.startup == 0
    then end_state (os.shutdown_ok && os.close_ok) os.listen_ok (opened_sockets os config)
        (listener_found os config)
    else ready false []

module _ (os : Os) (config : Config) (provided : IsProvided os) (valid : IsSocketAnswer os.socket)
    (ends : Closes os.extra) where
  main_listening-Ended :
      (expected : Option ℕ) (sockets : List ℕ) (opened : List Act × Option ℕ)
      → Opened os.listen_ok expected sockets opened
      → Ends
          (Ended
            (ready true [])
            (end_state (os.shutdown_ok && os.close_ok) os.listen_ok sockets expected)
            (exit_code expected))
          (main_listening os opened)
  unfolding main_listening
  main_listening-Ended expected sockets (acts, none) (e, played) = rw e (played, refl)
  main_listening-Ended expected sockets (acts, some sd) (e, played) =
      let closed = os.shutdown_ok && os.close_ok in
      rw e (
        >>=-Ends (Ended (listening_on os.listen_ok sd) (ended_on closed os.listen_ok sd) 0)
          (Ended (ready true []) (ended_on closed os.listen_ok sd) 0) (main_loop os sd) _
          (main_loop-Ended os provided sd ends)
          (λ (more, code) (later, zero). (
            play-append acts more (ready true []) (listening_on os.listen_ok sd) played ∙ later,
            zero,
          )))

  -- If every event and every thread can be created, the cleanup thread comes to set
  -- `h_event_cleanup_ended`, `recv` on the listener comes to an end and `socket` never returns
  -- INVALID_SOCKET as a socket, `main` of the muxer comes to its end, and every call in it is
  -- allowed when it is made: in particular no thread is created before all critical sections and
  -- events exist and a socket is bound. The exit code is 0 exactly if winsock starts and the
  -- listener can be bound; then all four threads have been created, the listener listened if
  -- `listen` succeeded, winsock is down, one critical section is left, and the listener is left
  -- open unless `shutdown` and `closesocket` succeed on it. Otherwise no thread is created, the
  -- sections and events exist, and winsock is up and the unbound socket open if they came to be.
  pub dispatcher_main-Ended :
      Ends
        (Ended idle (final os config) (exit_code (listener os config)))
        (dispatcher_main os config)
  unfolding dispatcher_main
  dispatcher_main-Ended = elim (Bool-cases (os.startup == 0)) [
    | inl up ↦ rw up (
        >>=-Ends
          (Ended (ready true [])
            (end_state (os.shutdown_ok && os.close_ok) os.listen_ok (opened_sockets os config)
              (listener_found os config))
            (exit_code (listener_found os config)))
          (Ended idle
            (end_state (os.shutdown_ok && os.close_ok) os.listen_ok (opened_sockets os config)
              (listener_found os config))
            (exit_code (listener_found os config)))
          (main_listening os (open_listener_socket os config 0)) _
          (main_listening-Ended (listener_found os config) (opened_sockets os config)
            (open_listener_socket os config 0) (open_listener_socket-Opened os config valid))
          (λ (acts, code) (played, result). (
            ap (λ all. play all idle)
                  (sym
                    (append_assoc init_critical_sections (create_events os) (wsa_startup ∷ acts)))
                ∙ play-append (init_critical_sections ++ create_events os) (wsa_startup ∷ acts) idle
                    (ready false []) (play_setup os provided)
                ∙ played,
            result,
          )))
    | inr down ↦ rw down (play_setup os provided, refl)
  ]
