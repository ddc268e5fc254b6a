-- ===== src/System/Watchers.antt =====
-- What the sections of the writing and of the processing thread of muxer/dispatcher.c do to the
-- queues and to the events that the other one waits for.
use muxer.Base.{
  ℕ, zero, suc, ◌≡◌, refl, ◌∙◌, true, List, [], ◌∷◌, ◌++◌, ◌==◌, inl, inr, ok, Whenever,
  >>=-Whenever, >>=-Whenever_any, check-Whenever, Whenever-imp, if_both, Bool-cases, length, leb,
  if◌then◌else◌, Option, none, some, to_uint, to_sint,
}
use muxer.Pdu.{write_pdu_to_send_buffer, buffer_ksize}
use muxer.State.{State, Connection, InMessage, OutMessage, Mapping, OutputType}
use muxer.Message.{alloc_in_message, alloc_out_message}
use muxer.Mapping.{alloc_socket_invokeid_mapping}
use muxer.Protocol.{
  Codec, encode_in_pdu, encode_out_pdu, decode_in_pdu, decode_out_pdu, generate_invokeid,
  put_into_socket_to_recv_unicast_msg, copy_in_message, copy_out_message,
  put_pdu_into_w_in_messages, put_pdu_into_w_out_messages, process_request, take_request,
  process_incoming_in_messages, route_reply, process_reply, take_reply,
  process_incoming_out_messages,
}
use muxer.Dispatcher.Buffers.{
  Sent, fill_out_buffer, write_data_to_out_buffer, fill_in_buffers, write_data_to_in_buffer,
  keep_valid_messages, free_w_in_messages_mapped_to_invalid_sockets,
}
use muxer.Dispatcher.Sockets.{
  FdSet, write_ready, write_out_socket, drop_client, cleared, rounds, write_in_loop,
  write_in_socket,
}
use muxer.Dispatcher.Threads.{Attempt, connect_to_output}
use muxer.System.{connect_unless_ok}
use muxer.System.Watching.{
  for_processing, for_writing, Raised, Raised-trans, Quiet, drop_client-Quiet,
}

-- A section of the writing thread.
abbrev pub Writes : State → State → Type 0
Writes s s' = for_processing s' ≡ for_processing s

fill_out_buffer-Writes :
    (queue : List OutMessage) (s : State) → Whenever (Writes s) (fill_out_buffer queue s)
unfolding fill_out_buffer
fill_out_buffer-Writes [] s = refl
fill_out_buffer-Writes (p ∷ rest) s =
    >>=-Whenever_any (Writes s) (write_pdu_to_send_buffer p.pdu buffer_ksize) _ (λ buf. refl)

pub write_data_to_out_buffer-Writes : (s : State) → Whenever (Writes s) (write_data_to_out_buffer s)
unfolding write_data_to_out_buffer
write_data_to_out_buffer-Writes s =
    check-Whenever (Writes s) (leb (length s.out_connection.w_buffer) buffer_ksize) _
      (elim (Bool-cases (length s.out_connection.w_buffer == 0)) [
        | inl idle ↦ rw idle (fill_out_buffer-Writes s.w_out_messages s)
        | inr busy ↦ rw busy refl
      ])

pub write_data_to_in_buffer-Writes : (s : State) → Whenever (Writes s) (write_data_to_in_buffer s)
unfolding write_data_to_in_buffer
write_data_to_in_buffer-Writes s =
    >>=-Whenever_any (Writes s) (fill_in_buffers s.connections s.w_in_messages) _ (λ filled. refl)

pub free_w_in_messages-Writes :
    (s : State) → Whenever (Writes s) (free_w_in_messages_mapped_to_invalid_sockets s)
unfolding free_w_in_messages_mapped_to_invalid_sockets
free_w_in_messages-Writes s =
    >>=-Whenever_any (Writes s) (keep_valid_messages s.connections s.w_in_messages) _ (λ left. refl)

pub write_out_socket-Writes :
    (w_fd e_fd : FdSet) (took : Sent) (s : State)
    → Whenever (Writes s) (write_out_socket w_fd e_fd took s)
unfolding write_out_socket
write_out_socket-Writes w_fd e_fd took s =
    >>=-Whenever_any (Writes s) (write_ready s.out_connection w_fd e_fd took) _ (λ (out, alright).
      elim (Bool-cases alright) [ inl fine ↦ rw fine refl | inr bad ↦ rw bad refl ])

module _ (send : ℕ → Sent) where
  write_in_loop-Writes :
      (fuel : ℕ) (seen todo : List Connection) (w_fd e_fd : FdSet) (s : State)
      → Whenever (Writes s) (write_in_loop fuel send seen todo w_fd e_fd s)
  unfolding write_in_loop
  write_in_loop-Writes zero seen todo w_fd e_fd s = tt
  write_in_loop-Writes (suc fuel) seen [] w_fd e_fd s = refl
  write_in_loop-Writes (suc fuel) seen (p ∷ rest) w_fd e_fd s =
      >>=-Whenever_any (Writes s) (write_ready p w_fd e_fd (send p.socket)) _ (λ (p', alright).
        let (w_fd', e_fd') = cleared p.socket w_fd e_fd in
        let t : State = record s { connections = seen ++ p' ∷ rest } in
        elim (Bool-cases alright) [
          | inl fine ↦ rw fine (write_in_loop-Writes fuel (seen ++ p' ∷ []) rest w_fd' e_fd' s)
          | inr bad ↦ rw bad (
              >>=-Whenever (Quiet t) (Writes s) (drop_client p' t) _ (drop_client-Quiet p' t)
                (λ s' (same, _).
                  Whenever-imp (Writes s') (Writes s)
                    (write_in_loop fuel send [] s'.connections w_fd' e_fd' s')
                    (λ u later. later ∙ same)
                    (write_in_loop-Writes fuel [] s'.connections w_fd' e_fd' s')))
        ])

  pub write_in_socket-Writes :
      (w_fd e_fd : FdSet) (s : State) → Whenever (Writes s) (write_in_socket send w_fd e_fd s)
  unfolding write_in_socket
  write_in_socket-Writes w_fd e_fd s =
      write_in_loop-Writes (rounds (length s.connections)) [] s.connections w_fd e_fd s

-- A section of the processing thread.
abbrev pub Processes : State → State → Type 0
Processes s s' = Raised for_writing s s'

put_pdu_into_w_in_messages-Processes :
    (socket : ℕ) (p : List ℕ) (s : State)
    → Whenever (Processes s) (put_pdu_into_w_in_messages socket p s)
unfolding put_pdu_into_w_in_messages
put_pdu_into_w_in_messages-Processes socket p s =
    >>=-Whenever_any (Processes s) (alloc_in_message socket p) _ (λ new. inl refl)

put_pdu_into_w_out_messages-Processes :
    (p : List ℕ) (s : State) → Whenever (Processes s) (put_pdu_into_w_out_messages p s)
unfolding put_pdu_into_w_out_messages
put_pdu_into_w_out_messages-Processes p s = inl refl

put_mapping-Same :
    (socket invokeid : ℕ) (s : State)
    → Whenever
        (λ s'. for_writing s' ≡ for_writing s)
        (put_into_socket_to_recv_unicast_msg socket invokeid s)
unfolding put_into_socket_to_recv_unicast_msg generate_invokeid
put_mapping-Same socket invokeid s =
    >>=-Whenever_any (λ s'. for_writing s' ≡ for_writing s)
      (alloc_socket_invokeid_mapping socket invokeid (generate_invokeid s).invokeid_gen_counter) _
      (λ new. refl)

module _ (codec : Codec) where
  process_request-Processes :
      (m : InMessage) (s : State) → Whenever (Processes s) (process_request codec m s)
  unfolding process_request
  process_request-Processes m s =
      >>=-Whenever (λ s'. for_writing s' ≡ for_writing s) (Processes s)
        (put_into_socket_to_recv_unicast_msg m.socket
          (to_uint (decode_in_pdu codec m.pdu).1.invokeid) s)
        _ (put_mapping-Same m.socket (to_uint (decode_in_pdu codec m.pdu).1.invokeid) s)
        (λ s' same.
          let (err, pdu) =
            encode_in_pdu codec (record (decode_in_pdu codec m.pdu).1 {
              invokeid = to_sint s'.invokeid_gen_counter;
            }) in
          if_both (Whenever (Processes s)) (err == 0) (put_pdu_into_w_out_messages pdu s') (ok s')
            (Whenever-imp (Processes s') (Processes s) (put_pdu_into_w_out_messages pdu s')
              (λ u later. Raised-trans for_writing s s' u (inr same) later)
              (put_pdu_into_w_out_messages-Processes pdu s'))
            (inr same))

  take_request-Processes :
      (queue : List InMessage) (s : State) → Whenever (Processes s) (take_request codec queue s)
  unfolding take_request
  take_request-Processes [] s = inr refl
  take_request-Processes (m ∷ rest) s =
      >>=-Whenever_any (Processes s) (copy_in_message m) _
        (λ r. process_request-Processes r (record s { r_in_messages = rest }))

  pub process_incoming_in_messages-Processes :
      (s : State) → Whenever (Processes s) (process_incoming_in_messages codec s)
  unfolding process_incoming_in_messages
  process_incoming_in_messages-Processes s = take_request-Processes s.r_in_messages s

  abbrev ProcessesWith : State → List Mapping × State → Type 0
  ProcessesWith s (left, s') = Processes s s'

  route_reply-Processes :
      (o : OutputType) (id : ℕ) (ms : List Mapping) (s : State)
      → Whenever (ProcessesWith s) (route_reply codec o id ms s)
  unfolding route_reply
  route_reply-Processes o id [] s = inr refl
  route_reply-Processes o id (m ∷ rest) s = elim (Bool-cases (m.invokeid_generated == id)) [
    | inl hit ↦
        let pdu = (encode_out_pdu codec (record o { invokeid = to_sint m.invokeid_original })).1 in
        rw (hit, route_reply)
          (>>=-Whenever (Processes s) (ProcessesWith s) (put_pdu_into_w_in_messages m.socket pdu s)
            _ (put_pdu_into_w_in_messages-Processes m.socket pdu s)
            (λ s' raised.
              Whenever-imp (ProcessesWith s') (ProcessesWith s) (route_reply codec o id rest s')
                (λ (left, u) later. Raised-trans for_writing s s' u raised later)
                (route_reply-Processes o id rest s')))
    | inr miss ↦
        rw (miss, route_reply)
          (>>=-Whenever (ProcessesWith s) (ProcessesWith s) (route_reply codec o id rest s) _
            (route_reply-Processes o id rest s) (λ (left, s') raised. raised))
  ]

  take_reply-Processes :
      (queue : List OutMessage) (s : State) → Whenever (Processes s) (take_reply codec queue s)
  unfolding take_reply copy_out_message alloc_out_message process_reply
  take_reply-Processes [] s = inr refl
  take_reply-Processes (p ∷ rest) s =
      let t : State = record s { r_out_messages = rest } in
      let o = (decode_out_pdu codec p.pdu).1 in
      >>=-Whenever (ProcessesWith s) (Processes s)
        (route_reply codec o (to_uint o.invokeid) s.socket_to_recv_unicast_msg t) _
        (route_reply-Processes o (to_uint o.invokeid) s.socket_to_recv_unicast_msg t)
        (λ (left, s') raised. raised)

  pub process_incoming_out_messages-Processes :
      (s : State) → Whenever (Processes s) (process_incoming_out_messages codec s)
  unfolding process_incoming_out_messages
  process_incoming_out_messages-Processes s = take_reply-Processes s.r_out_messages s

connect_to_output-Same :
    (addresses : Option (List Attempt)) (s : State)
    → for_writing (connect_to_output addresses s).0 ≡ for_writing s
unfolding connect_to_output
connect_to_output-Same none s = refl
connect_to_output-Same (some addresses) s = refl

pub connect_unless_ok-Processes :
    (addresses : Option (List Attempt)) (s : State) → Processes s (connect_unless_ok addresses s)
unfolding connect_unless_ok
connect_unless_ok-Processes addresses s =
    let (s', connected_now) = connect_to_output addresses s in
    let same = connect_to_output-Same addresses s in
    let t : State = record s' { is_out_connection_ok = true } in
    if_both (Processes s) s.is_out_connection_ok s (if connected_now then t else s') (inr refl)
      (if_both (Processes s) connected_now t s' (inr same) (inr same))
