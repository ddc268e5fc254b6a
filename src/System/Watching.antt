-- ===== src/System/Watching.antt =====
-- What the sections of the reading thread of muxer/dispatcher.c do to the queues and to the events
-- that the other threads wait for.
use muxer.Base.{
  ℕ, zero, suc, ◌≡◌, refl, ◌∙◌, ap, Bool, true, List, [], ◌∷◌, ◌++◌, ◌==◌, ◌⊎◌, inl, inr, Whenever,
  >>=-Whenever, >>=-Whenever_any, check-Whenever, Whenever-imp, leb, ltb, length, Bool-cases, has,
  none, some,
}
use muxer.Pdu.{Pdu, read_pdus_from_recv_buffer, buffer_ksize}
use muxer.State.{State, Connection, InMessage, OutMessage}
use muxer.Mapping.{remove_all_mappings_for}
use muxer.Message.{alloc_in_message, alloc_out_message}
use muxer.Connection.{alloc_connection, remove_connections, remove_connection, shutdown_called}
use muxer.Dispatcher.Buffers.{
  Received, put_r_out_messages, read_data_from_out_buffer, put_r_in_messages,
  read_data_from_in_buffer,
}
use muxer.Dispatcher.Sockets.{
  FdSet, Accepted, accept_connection, read_listener_socket, read_ready, read_out_socket,
  drop_client, cleared, rounds, read_in_loop, read_in_socket,
}

abbrev pub View : Type 0
View = List InMessage × List OutMessage × Bool

-- What the processing thread and the writing thread have to do, and the event they wait for.
abbrev pub for_processing : State → View
for_processing s = (s.r_in_messages, s.r_out_messages, s.event_process_data)

abbrev pub for_writing : State → View
for_writing s = (s.w_in_messages, s.w_out_messages, s.event_new_message)

-- The event is signalled, or nothing has changed.
abbrev pub Raised : (State → View) → State → State → Type 0
Raised view s s' = ((view s').2 ≡ true) ⊎ (view s' ≡ view s)

pub Raised-trans :
    (view : State → View) (s t u : State) → Raised view s t → Raised view t u → Raised view s u
Raised-trans view s t u first (inl raised) = inl raised
Raised-trans view s t u (inl raised) (inr same) = inl (ap (λ (v : View). v.2) same ∙ raised)
Raised-trans view s t u (inr before) (inr same) = inr (same ∙ before)

-- A section of the reading thread.
abbrev pub Reads : State → State → Type 0
Reads s s' = Raised for_processing s s' × (for_writing s' ≡ for_writing s)

pub Reads-trans : (s t u : State) → Reads s t → Reads t u → Reads s u
Reads-trans s t u (raised, same) (raised', same') =
    (Raised-trans for_processing s t u raised raised', same' ∙ same)

-- Neither view has changed.
abbrev pub Quiet : State → State → Type 0
Quiet s s' = (for_processing s' ≡ for_processing s) × (for_writing s' ≡ for_writing s)

pub Quiet-trans : (s t u : State) → Quiet s t → Quiet t u → Quiet s u
Quiet-trans s t u (p, w) (p', w') = (p' ∙ p, w' ∙ w)

pub remove_connections-Quiet :
    (socket : ℕ) (cs : List Connection) (s : State) (n : ℕ)
    → Quiet s (remove_connections socket cs s n).1
unfolding remove_connections remove_all_mappings_for
remove_connections-Quiet socket [] s n = (refl, refl)
remove_connections-Quiet socket (c ∷ cs) s n = elim (Bool-cases (c.socket == socket)) [
  | inl hit ↦
      rw (hit, remove_connections)
        (remove_connections-Quiet socket cs (remove_all_mappings_for c.socket s) (suc n))
  | inr miss ↦ rw (miss, remove_connections) (remove_connections-Quiet socket cs s n)
]

pub drop_client-Quiet : (p : Connection) (s : State) → Whenever (Quiet s) (drop_client p s)
unfolding drop_client remove_connection shutdown_called
drop_client-Quiet p s =
    let t = shutdown_called p.socket s in
    check-Whenever (Quiet s) (leb (remove_connections p.socket t.connections t 0).2 1) _
      (remove_connections-Quiet p.socket t.connections t 0)

put_r_out_messages-Reads :
    (ps : List Pdu) (s : State) → Whenever (Reads s) (put_r_out_messages ps s)
unfolding put_r_out_messages alloc_out_message
put_r_out_messages-Reads [] s = (inr refl, refl)
put_r_out_messages-Reads (p ∷ ps) s =
    let t : State = record s {
      r_out_messages = s.r_out_messages ++ record { pdu = p } ∷ [];
      event_process_data = true;
    } in
    Whenever-imp (Reads t) (Reads s) (put_r_out_messages ps t)
      (λ u later. Reads-trans s t u (inl refl, refl) later) (put_r_out_messages-Reads ps t)

put_r_in_messages-Reads :
    (socket : ℕ) (ps : List Pdu) (s : State) → Whenever (Reads s) (put_r_in_messages socket ps s)
unfolding put_r_in_messages alloc_in_message
put_r_in_messages-Reads socket [] s = (inr refl, refl)
put_r_in_messages-Reads socket (p ∷ ps) s =
    let t : State = record s {
      r_in_messages = s.r_in_messages ++ record { socket = socket; pdu = p } ∷ [];
      event_process_data = true;
    } in
    elim (Bool-cases (ltb 0 socket)) [
      | inl fine ↦
          rw (fine, put_r_in_messages)
            (Whenever-imp (Reads t) (Reads s) (put_r_in_messages socket ps t)
              (λ u later. Reads-trans s t u (inl refl, refl) later)
              (put_r_in_messages-Reads socket ps t))
      | inr zero_socket ↦ rw (zero_socket, put_r_in_messages) tt
    ]

read_data_from_out_buffer-Reads : (s : State) → Whenever (Reads s) (read_data_from_out_buffer s)
unfolding read_data_from_out_buffer
read_data_from_out_buffer-Reads s =
    let conn = s.out_connection in
    >>=-Whenever_any (Reads s) (read_pdus_from_recv_buffer buffer_ksize conn.r_buffer) _
      (λ (pdus, left).
        put_r_out_messages-Reads pdus
          (record s { out_connection = record conn { r_buffer = left } }))

abbrev ReadsWith {ℓ} : {A : Type ℓ} → State → A × State → Type 0
ReadsWith s (p, s') = Reads s s'

read_data_from_in_buffer-Reads :
    (p : Connection) (s : State) → Whenever (ReadsWith s) (read_data_from_in_buffer p s)
unfolding read_data_from_in_buffer
read_data_from_in_buffer-Reads p s =
    >>=-Whenever_any (ReadsWith s) (read_pdus_from_recv_buffer buffer_ksize p.r_buffer) _
      (λ (pdus, left).
        >>=-Whenever (Reads s) (ReadsWith s) (put_r_in_messages p.socket pdus s) _
          (put_r_in_messages-Reads p.socket pdus s) (λ s' reads. reads))

pub read_listener_socket-Reads :
    (listener : ℕ) (r_fd : FdSet) (accepted : Accepted) (s : State)
    → Whenever (Reads s) (read_listener_socket listener r_fd accepted s)
unfolding read_listener_socket accept_connection
read_listener_socket-Reads listener r_fd none s = elim (Bool-cases (has listener r_fd)) [
  | inl ready ↦ rw ready (inr refl, refl)
  | inr quiet ↦ rw quiet (inr refl, refl)
]
read_listener_socket-Reads listener r_fd (some (socket, ip, port)) s =
    elim (Bool-cases (has listener r_fd)) [
      | inl ready ↦
          rw ready (
            >>=-Whenever_any (Reads s) (alloc_connection socket ip port) _
              (λ new. (inr refl, refl)))
      | inr quiet ↦ rw quiet (inr refl, refl)
    ]

pub read_out_socket-Reads :
    (r_fd e_fd : FdSet) (got : Received) (s : State)
    → Whenever (Reads s) (read_out_socket r_fd e_fd got s)
unfolding read_out_socket
read_out_socket-Reads r_fd e_fd got s =
    >>=-Whenever_any (Reads s) (read_ready s.out_connection r_fd e_fd got) _ (λ (out, alright).
      elim (Bool-cases alright) [
        | inl fine ↦ rw fine (read_data_from_out_buffer-Reads (record s { out_connection = out }))
        | inr bad ↦ rw bad (inr refl, refl)
      ])

module _ (recv : ℕ → Received) where
  read_in_loop-Reads :
      (fuel : ℕ) (seen todo : List Connection) (r_fd e_fd : FdSet) (s : State)
      → Whenever (Reads s) (read_in_loop fuel recv seen todo r_fd e_fd s)
  unfolding read_in_loop
  read_in_loop-Reads zero seen todo r_fd e_fd s = tt
  read_in_loop-Reads (suc fuel) seen [] r_fd e_fd s = (inr refl, refl)
  read_in_loop-Reads (suc fuel) seen (p ∷ rest) r_fd e_fd s =
      >>=-Whenever_any (Reads s) (read_ready p r_fd e_fd (recv p.socket)) _ (λ (p', alright).
        let (r_fd', e_fd') = cleared p.socket r_fd e_fd in
        let t : State = record s { connections = seen ++ p' ∷ rest } in
        elim (Bool-cases alright) [
          | inl fine ↦ rw fine (
              >>=-Whenever (ReadsWith s) (Reads s) (read_data_from_in_buffer p' s) _
                (read_data_from_in_buffer-Reads p' s)
                (λ (p'', s') reads.
                  Whenever-imp (Reads s') (Reads s)
                    (read_in_loop fuel recv (seen ++ p'' ∷ []) rest r_fd' e_fd' s')
                    (λ u later. Reads-trans s s' u reads later)
                    (read_in_loop-Reads fuel (seen ++ p'' ∷ []) rest r_fd' e_fd' s')))
          | inr bad ↦ rw bad (
              >>=-Whenever (Quiet t) (Reads s) (drop_client p' t) _ (drop_client-Quiet p' t)
                (λ s' (same, same').
                  Whenever-imp (Reads s') (Reads s)
                    (read_in_loop fuel recv [] s'.connections r_fd' e_fd' s')
                    (λ u later. Reads-trans s s' u (inr same, same') later)
                    (read_in_loop-Reads fuel [] s'.connections r_fd' e_fd' s')))
        ])

  pub read_in_socket-Reads :
      (r_fd e_fd : FdSet) (s : State) → Whenever (Reads s) (read_in_socket recv r_fd e_fd s)
  unfolding read_in_socket
  read_in_socket-Reads r_fd e_fd s =
      read_in_loop-Reads (rounds (length s.connections)) [] s.connections r_fd e_fd s
