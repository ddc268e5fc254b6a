-- ===== src/System/Writers.antt =====
-- What the writing thread does to the clients of a well-formed state.
use muxer.Base.{
  ℕ, zero, suc, ◌+◌, ◌*◌, ◌≤◌, ◌<◌, ◌≡◌, refl, arith, Bool, true, false, List, [], ◌∷◌, ◌++◌, ◌==◌,
  length, All, All-at, All-imp, Outcome, ◌>>=◌, Returns, >>=-Returns, if◌then◌else◌, append-nil,
  Option, none, some, le→leb, Bool-cases, inl, inr, sym, ◌∙◌,
}
use muxer.Pdu.{buffer_ksize, write_pdu_to_send_buffer}
use muxer.State.{State, Connection, InMessage}
use muxer.Protocol.{Codec}
use muxer.Connection.Removal.{IsDistinct}
use muxer.Dispatcher.Buffers.{
  Sent, take_message_for, fill_with, fill_in_buffer, fill_in_buffers, write_data_to_in_buffer,
}
use muxer.Dispatcher.Sockets.{
  FdSet, drop_client, write_ready, write_out_socket, write_in_loop, write_in_socket, rounds,
  cleared,
}
use muxer.Dispatcher.Rounds.{Bound}
use muxer.Dispatcher.Streams.{AreSendable, Found, take_message_for-Found}
use muxer.System.{Sound, WellFormed, IsClient, IsConnection, IsTaken}
use muxer.System.Clients.{IsFree, Expects}
use muxer.System.Loops.{Sound-clients, Sound-server, Serves, begin_anew-Returns, go_on-Returns}
use muxer.System.Writing.{write_pdu-Returns, Wrote, write_ready-Returns, Sound-to_clients}

-- What the filling of one client's buffer comes to.
abbrev Filled : Connection → Connection × List InMessage → Type 0
Filled c (c', queue) = (c'.socket ≡ c.socket) × IsClient c' × AreSendable queue

fill_with-Returns :
    (c : Connection) (found : Option (InMessage × List InMessage)) (queue : List InMessage)
    → IsClient c
    → Found found
    → AreSendable queue
    → Returns (Filled c) (fill_with c found queue)
unfolding fill_with
fill_with-Returns c none queue client h all = (refl, client, all)
fill_with-Returns c (some (r, left)) queue client h all =
    >>=-Returns (λ w. length w ≤ buffer_ksize) (Filled c)
      (write_pdu_to_send_buffer r.pdu buffer_ksize) _ (write_pdu-Returns r.pdu h.0)
      (λ w small. (refl, (client.0, (client.1.0, client.1.1, small)), h.1))

fill_in_buffer-Returns :
    (c : Connection) (queue : List InMessage)
    → IsClient c
    → AreSendable queue
    → Returns (Filled c) (fill_in_buffer c queue)
unfolding fill_in_buffer
fill_in_buffer-Returns c queue client all =
    rw (le→leb (length c.w_buffer) buffer_ksize client.1.2)
      (elim (Bool-cases (length c.w_buffer == 0)) [
        | inl empty ↦ rw empty (
            fill_with-Returns c (take_message_for c.socket queue) queue client
              (take_message_for-Found c.socket queue all) all)
        | inr full ↦ rw full (refl, client, all)
      ])

-- The clients after the filling have the sockets that they had.
abbrev AllFilled : List Connection → List Connection × List InMessage → Type 0
AllFilled cs (cs', queue) =
    ((socket : ℕ) → IsFree socket cs → IsFree socket cs')
    × (IsDistinct cs → IsDistinct cs')
    × All IsClient cs'
    × AreSendable queue

fill_in_buffers-Returns :
    (cs : List Connection) (queue : List InMessage)
    → All IsClient cs
    → AreSendable queue
    → Returns (AllFilled cs) (fill_in_buffers cs queue)
unfolding fill_in_buffers
fill_in_buffers-Returns [] queue clients all = ((λ socket free. free), (λ d. d), tt, all)
fill_in_buffers-Returns (c ∷ cs) queue clients all =
    >>=-Returns (Filled c) (AllFilled (c ∷ cs)) (fill_in_buffer c queue) _
      (fill_in_buffer-Returns c queue clients.0 all)
      (λ (c', queue') (same, client, all').
        >>=-Returns (AllFilled cs) (AllFilled (c ∷ cs)) (fill_in_buffers cs queue') _
          (fill_in_buffers-Returns cs queue' clients.1 all')
          (λ (cs', queue'') (free, distinct, clients', all''). (
            (λ socket f. ((λ e. f.0 (sym same ∙ e)), free socket f.1)),
            (λ d. (rw same (free c.socket d.0), distinct d.1)),
            (client, clients'),
            all'',
          )))

module _ (codec : Codec) where
  pub write_data_to_in_buffer-Returns :
      (s : State) → WellFormed codec s → Returns (WellFormed codec) (write_data_to_in_buffer s)
  unfolding write_data_to_in_buffer
  write_data_to_in_buffer-Returns s h =
      >>=-Returns (AllFilled s.connections) (WellFormed codec)
        (fill_in_buffers s.connections s.w_in_messages) _
        (fill_in_buffers-Returns s.connections s.w_in_messages h.1.1 h.0.to_clients)
        (λ (cs, queue) (free, distinct, clients, all).
          (Sound-to_clients codec s h queue cs all, (distinct h.1.0, clients)))

  -- What is expected of `send`.
  abbrev Taken : (ℕ → Sent) → Connection → Type 0
  Taken send c = IsTaken c (send c.socket)

  module _ (C : Connection → Type 0) (fuel n : ℕ)
      (loop : List Connection → List Connection → FdSet → FdSet → State → Outcome State)
      (ih : (k : ℕ) (seen todo : List Connection) (fd e_fd : FdSet) (s : State)
        → Bound fuel k seen todo
        → Sound codec s
        → Serves C fd (seen ++ todo)
        → Returns (WellFormed codec) (loop seen todo fd e_fd s))
      (seen : List Connection) (p : Connection) (rest : List Connection) (fd e_fd : FdSet)
      (e : n ≡ length seen + suc (length rest)) (f : n * n + suc (length rest) < suc fuel)
      (serves : Serves C fd (seen ++ p ∷ rest)) (s : State) (sound : Sound codec s) where
    write_round-Returns :
        (r : Connection × Bool)
        → Wrote C fd e_fd p r
        → Returns (WellFormed codec) (elim r.1 [
          | true ↦
              loop
                (seen ++ r.0 ∷ [])
                rest
                (cleared p.socket fd e_fd).0
                (cleared p.socket fd e_fd).1
                s
          | false ↦ drop_client r.0 (record s { connections = seen ++ r.0 ∷ rest }) >>= λ s'.
              loop [] s'.connections (cleared p.socket fd e_fd).0 (cleared p.socket fd e_fd).1 s'
        ])
    write_round-Returns (q, true) (same, conn, done) =
        let client = All-at IsClient seen p rest serves.0.1 in
        go_on-Returns codec C fuel n loop ih seen p rest fd e_fd e f serves q s same
          (rw same client.0, conn) (done refl q same) sound
    write_round-Returns (q, false) (same, conn, done) =
        begin_anew-Returns codec C fuel n loop ih seen p rest fd e_fd e f serves q s same sound

  write_in_loop-Returns :
      (fuel n : ℕ) (send : ℕ → Sent) (seen todo : List Connection) (w_fd e_fd : FdSet) (s : State)
      → Bound fuel n seen todo
      → Sound codec s
      → Serves (Taken send) w_fd (seen ++ todo)
      → Returns (WellFormed codec) (write_in_loop fuel send seen todo w_fd e_fd s)
  unfolding write_in_loop
  write_in_loop-Returns zero n send seen todo w_fd e_fd s b sound serves =
      absurd (omega (arith, b.1))
  write_in_loop-Returns (suc fuel) n send seen [] w_fd e_fd s b sound serves =
      (Sound-clients codec s sound seen, rw⁻¹ (append-nil seen) serves.0)
  write_in_loop-Returns (suc fuel) n send seen (p ∷ rest) w_fd e_fd s b sound serves =
      let client = All-at IsClient seen p rest serves.0.1 in
      >>=-Returns (Wrote (Taken send) w_fd e_fd p) (WellFormed codec)
        (write_ready p w_fd e_fd (send p.socket)) _
        (write_ready-Returns (Taken send) p w_fd e_fd (send p.socket) client.1
          (All-at (Expects (Taken send) w_fd) seen p rest serves.1))
        (write_round-Returns (Taken send) fuel n (write_in_loop fuel send)
          (λ k. write_in_loop-Returns fuel k send) seen p rest w_fd e_fd b.0 b.1 serves s sound)

  pub write_in_socket-Returns :
      (send : ℕ → Sent) (w_fd e_fd : FdSet) (s : State)
      → WellFormed codec s
      → All (Taken send) s.connections
      → Returns (WellFormed codec) (write_in_socket send w_fd e_fd s)
  unfolding write_in_socket
  write_in_socket-Returns send w_fd e_fd s h all =
      write_in_loop-Returns (rounds (length s.connections)) (length s.connections) send []
        s.connections w_fd e_fd s (omega arith, omega arith) h.0
        (h.1, All-imp s.connections (λ c taken there. taken) all)

  written :
      (s : State)
      → WellFormed codec s
      → (c : Connection) (fine : Bool) → IsConnection c
      → let s' = record s { out_connection = c } in
        WellFormed codec (if fine then s' else record s' { event_do_cleanup = true })
  written s h c true conn = (Sound-server codec s h.0 c s.event_do_cleanup conn, h.1)
  written s h c false conn = (Sound-server codec s h.0 c true conn, h.1)

  pub write_out_socket-Returns :
      (w_fd e_fd : FdSet) (took : Sent) (s : State)
      → WellFormed codec s
      → IsTaken s.out_connection took
      → Returns (WellFormed codec) (write_out_socket w_fd e_fd took s)
  unfolding write_out_socket
  write_out_socket-Returns w_fd e_fd took s h taken =
      >>=-Returns (Wrote (λ c. Unit {0}) w_fd e_fd s.out_connection) (WellFormed codec)
        (write_ready s.out_connection w_fd e_fd took) _
        (write_ready-Returns (λ c. Unit {0}) s.out_connection w_fd e_fd took h.0.server
          (λ there. taken))
        (λ (c, fine) (same, conn, done). written s h c fine conn)
