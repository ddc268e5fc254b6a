-- ===== src/System/Readers.antt =====
-- What the reading thread does to a well-formed state: accepting a client, and reading from the
-- server and from the clients.
use muxer.Base.{
  ℕ, zero, suc, ◌+◌, ◌*◌, ◌<◌, ◌≡◌, refl, arith, Bool, true, false, List, [], ◌∷◌, ◌++◌, length,
  All, All-at, All-append, All-imp, has, Outcome, ok, ◌>>=◌, Returns, Returns-imp, >>=-Returns,
  if◌then◌else◌, append-nil, none, some, lt→ltb, Bool-cases, inl, inr, ◌∙◌,
}
use muxer.State.{State, Connection}
use muxer.Protocol.{Codec}
use muxer.Connection.{alloc_connection}
use muxer.Dispatcher.Buffers.{Received, read_data_from_in_buffer, read_data_from_out_buffer}
use muxer.Dispatcher.Sockets.{
  FdSet, Accepted, accept_connection, drop_client, read_ready, read_in_loop, read_in_socket,
  read_out_socket, read_listener_socket, rounds, cleared,
}
use muxer.Dispatcher.Rounds.{Bound}
use muxer.System.{Sound, WellFormed, IsClient, IsRequest, IsAnswer, Arrives, IsNew}
use muxer.System.Clients.{IsDistinct-append, Expects}
use muxer.System.Loops.{Sound-clients, Sound-server, Serves, begin_anew-Returns, go_on-Returns}
use muxer.System.Reading.{
  Ready, read_ready-Returns, read_data_from_in_buffer-Returns, read_data_from_out_buffer-Returns,
}

module _ (codec : Codec) where
  -- What is expected of a client: that it sends requests.
  abbrev Requests : (ℕ → Received) → Connection → Type 0
  Requests recv c = Arrives (IsRequest codec) c (recv c.socket)

  module _ (C : Connection → Type 0) (fuel n : ℕ)
      (loop : List Connection → List Connection → FdSet → FdSet → State → Outcome State)
      (ih : (k : ℕ) (seen todo : List Connection) (fd e_fd : FdSet) (s : State)
        → Bound fuel k seen todo
        → Sound codec s
        → Serves C fd (seen ++ todo)
        → Returns (WellFormed codec) (loop seen todo fd e_fd s))
      (seen : List Connection) (p : Connection) (rest : List Connection) (fd e_fd : FdSet)
      (e : n ≡ length seen + suc (length rest)) (f : n * n + suc (length rest) < suc fuel)
      (serves : Serves C fd (seen ++ p ∷ rest)) (s : State) (sound : Sound codec s) where
    read_round-Returns :
        (r : Connection × Bool)
        → Ready (IsRequest codec) C fd e_fd p r
        → Returns (WellFormed codec) (elim r.1 [
          | true ↦ read_data_from_in_buffer r.0 s >>= λ (p'', s').
              loop
                (seen ++ p'' ∷ [])
                rest
                (cleared p.socket fd e_fd).0
                (cleared p.socket fd e_fd).1
                s'
          | false ↦ drop_client r.0 (record s { connections = seen ++ r.0 ∷ rest }) >>= λ s'.
              loop [] s'.connections (cleared p.socket fd e_fd).0 (cleared p.socket fd e_fd).1 s'
        ])
    read_round-Returns (q, true) (same, served, done, kept) =
        let client = All-at IsClient seen p rest serves.0.1 in
        >>=-Returns (λ (c', s'). (c'.socket ≡ q.socket) × IsClient c' × Sound codec s')
          (WellFormed codec) (read_data_from_in_buffer q s) _
          (read_data_from_in_buffer-Returns codec q s sound (rw same client.0) served)
          (λ (q', s') (same', client', sound').
            go_on-Returns codec C fuel n loop ih seen p rest fd e_fd e f serves q' s' (same' ∙ same)
              client' (done refl q' (same' ∙ same)) sound')
    read_round-Returns (q, false) (same, served, done, kept) =
        begin_anew-Returns codec C fuel n loop ih seen p rest fd e_fd e f serves q s same sound

  read_in_loop-Returns :
      (fuel n : ℕ) (recv : ℕ → Received) (seen todo : List Connection) (r_fd e_fd : FdSet)
      (s : State)
      → Bound fuel n seen todo
      → Sound codec s
      → Serves (Requests recv) r_fd (seen ++ todo)
      → Returns (WellFormed codec) (read_in_loop fuel recv seen todo r_fd e_fd s)
  unfolding read_in_loop
  read_in_loop-Returns zero n recv seen todo r_fd e_fd s b sound serves =
      absurd (omega (arith, b.1))
  read_in_loop-Returns (suc fuel) n recv seen [] r_fd e_fd s b sound serves =
      (Sound-clients codec s sound seen, rw⁻¹ (append-nil seen) serves.0)
  read_in_loop-Returns (suc fuel) n recv seen (p ∷ rest) r_fd e_fd s b sound serves =
      let client = All-at IsClient seen p rest serves.0.1 in
      >>=-Returns (Ready (IsRequest codec) (Requests recv) r_fd e_fd p) (WellFormed codec)
        (read_ready p r_fd e_fd (recv p.socket)) _
        (read_ready-Returns (IsRequest codec) (Requests recv) p r_fd e_fd (recv p.socket) client.1
          (All-at (Expects (Requests recv) r_fd) seen p rest serves.1))
        (read_round-Returns (Requests recv) fuel n (read_in_loop fuel recv)
          (λ k. read_in_loop-Returns fuel k recv) seen p rest r_fd e_fd b.0 b.1 serves s sound)

  pub read_in_socket-Returns :
      (recv : ℕ → Received) (r_fd e_fd : FdSet) (s : State)
      → WellFormed codec s
      → All (Requests recv) s.connections
      → Returns (WellFormed codec) (read_in_socket recv r_fd e_fd s)
  unfolding read_in_socket
  read_in_socket-Returns recv r_fd e_fd s h all =
      read_in_loop-Returns (rounds (length s.connections)) (length s.connections) recv []
        s.connections r_fd e_fd s (omega arith, omega arith) h.0
        (h.1, All-imp s.connections (λ c arrives there. arrives) all)

  read_out-Returns :
      (r_fd e_fd : FdSet) (s : State)
      → WellFormed codec s
      → (r : Connection × Bool)
      → Ready (IsAnswer codec) (λ c. Unit {0}) r_fd e_fd s.out_connection r
      → Returns (WellFormed codec) (
          if r.1
          then read_data_from_out_buffer (record s { out_connection = r.0 })
          else ok (record s { out_connection = r.0; event_do_cleanup = true }))
  read_out-Returns r_fd e_fd s h (c, true) (same, served, done, kept) =
      Returns-imp _ (WellFormed codec) (read_data_from_out_buffer (record s { out_connection = c }))
        (λ s' (sound, same'). (sound, rw same' h.1))
        (read_data_from_out_buffer-Returns codec s c h.0 served)
  read_out-Returns r_fd e_fd s h (c, false) (same, served, done, kept) =
      (Sound-server codec s h.0 c true (kept refl), h.1)

  pub read_out_socket-Returns :
      (r_fd e_fd : FdSet) (got : Received) (s : State)
      → WellFormed codec s
      → Arrives (IsAnswer codec) s.out_connection got
      → Returns (WellFormed codec) (read_out_socket r_fd e_fd got s)
  unfolding read_out_socket
  read_out_socket-Returns r_fd e_fd got s h arrives =
      >>=-Returns (Ready (IsAnswer codec) (λ c. Unit {0}) r_fd e_fd s.out_connection)
        (WellFormed codec) (read_ready s.out_connection r_fd e_fd got) _
        (read_ready-Returns (IsAnswer codec) (λ c. Unit {0}) s.out_connection r_fd e_fd got
          h.0.server (λ there. arrives))
        (read_out-Returns r_fd e_fd s h)

  accept_connection-Returns :
      (accepted : Accepted) (s : State)
      → WellFormed codec s
      → IsNew accepted s.connections
      → Returns (WellFormed codec) (accept_connection accepted s)
  unfolding accept_connection alloc_connection
  accept_connection-Returns none s h new = h
  accept_connection-Returns (some (socket, ip_addr, ip_port)) s h new = rw (lt→ltb 0 socket new.0) (
    Sound-clients codec s h.0 _,
    (
      IsDistinct-append s.connections _ h.1.0 new.1,
      All-append IsClient s.connections _ h.1.1
          ((new.0, (inl (omega arith), omega arith, omega arith)), tt),
    ),
  )

  pub read_listener_socket-Returns :
      (listener : ℕ) (r_fd : FdSet) (accepted : Accepted) (s : State)
      → WellFormed codec s
      → IsNew accepted s.connections
      → Returns (WellFormed codec) (read_listener_socket listener r_fd accepted s)
  unfolding read_listener_socket
  read_listener_socket-Returns listener r_fd accepted s h new =
      elim (Bool-cases (has listener r_fd)) [
        | inl ready ↦ rw ready (accept_connection-Returns accepted s h new)
        | inr idle ↦ rw idle h
      ]
