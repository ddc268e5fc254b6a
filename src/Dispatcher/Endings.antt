-- ===== src/Dispatcher/Endings.antt =====
-- The steps of one round of the loops over the clients in muxer/dispatcher.c.
use muxer.Base.{
  ℕ, zero, suc, ◌+◌, ◌-◌, ◌≤◌, ◌<◌, ◌≡◌, refl, arith, true, List, [], ◌∷◌, ◌++◌, ◌==◌, leb, ltb,
  length, drop, length-drop, has, eq_refl, Outcome, Bool-cases, inl, inr, Ends, >>=-Ends,
  check-Ends,
}
use muxer.Pdu.{
  Pdu, with_header, holds_pdu, header_of, read_loop, read_pdus_from_recv_buffer, buffer_ksize,
  pdu_header_length,
}
use muxer.State.{State, Connection}
use muxer.Mapping.{remove_all_mappings_for}
use muxer.Message.{alloc_in_message}
use muxer.Connection.{shutdown_called, remove_connections, remove_connection}
use muxer.Dispatcher.Buffers.{
  Received, received, recv_error, Sent, sent, send_error, send_part, read_data, write_data,
  put_r_in_messages, read_data_from_in_buffer,
}
use muxer.Dispatcher.Sockets.{FdSet, read_ready, write_ready, drop_client}

abbrev pub Anything {ℓ} : {A : Type ℓ} → A → Type 0
Anything a = Unit {0}

pub with_header-Ends :
    (continue : ℕ → List ℕ → Outcome (List Pdu × List ℕ)) (size : ℕ) (buf : List ℕ)
    → Ends Anything (continue (header_of buf) buf)
    → Ends Anything (with_header continue size buf)
unfolding with_header
with_header-Ends continue size buf h = elim (Bool-cases (ltb (length buf) pdu_header_length)) [
  | inl short ↦ rw short tt
  | inr long ↦ rw long (check-Ends Anything (leb (header_of buf) (size - pdu_header_length)) _ h)
]

shorter :
    (fuel hlen : ℕ) (buf : List ℕ)
    → holds_pdu hlen buf ≡ true
    → length buf < suc fuel
    → length (drop (hlen + pdu_header_length) buf) < fuel
unfolding holds_pdu
shorter fuel hlen buf held f =
    let l = length-drop (hlen + pdu_header_length) buf in
    let two : 2 ≤ length buf = ground arith in omega arith

pub read_loop-Ends :
    (fuel size hlen : ℕ) (buf : List ℕ)
    → length buf < fuel
    → Ends Anything (read_loop fuel size hlen buf)
unfolding read_loop
read_loop-Ends zero size hlen buf f = absurd (omega arith)
read_loop-Ends (suc fuel) size hlen buf f = elim (Bool-cases (holds_pdu hlen buf)) [
  | inl held ↦
      rw (held, read_loop)
        (>>=-Ends Anything Anything
          (with_header (read_loop fuel size) size (drop (hlen + pdu_header_length) buf)) _
          (with_header-Ends (read_loop fuel size) size (drop (hlen + pdu_header_length) buf) (
            read_loop-Ends fuel size _ (drop (hlen + pdu_header_length) buf)
              (shorter fuel hlen buf held f)))
          (λ a h. tt))
  | inr over ↦ rw (over, read_loop) tt
]

read_data-Ends : (p : Connection) (got : Received) → Ends Anything (read_data p got)
unfolding read_data
read_data-Ends p (received []) = check-Ends Anything (leb (length p.r_buffer) buffer_ksize) _ tt
read_data-Ends p (received (b ∷ bs)) =
    check-Ends Anything (leb (length p.r_buffer) buffer_ksize) _
      (check-Ends Anything (leb (length (p.r_buffer ++ b ∷ bs)) buffer_ksize) _ tt)
read_data-Ends p (recv_error err) = check-Ends Anything (leb (length p.r_buffer) buffer_ksize) _ tt

pub read_ready-Ends :
    (p : Connection) (r_fd e_fd : FdSet) (got : Received)
    → Ends Anything (read_ready p r_fd e_fd got)
unfolding read_ready
read_ready-Ends p r_fd e_fd got = elim (Bool-cases (has p.socket e_fd)) [
  | inl out ↦ rw out tt
  | inr fine ↦ elim (Bool-cases (has p.socket r_fd)) [
    | inl ready ↦ rw (fine, ready) (read_data-Ends p got)
    | inr idle ↦ rw (fine, idle) tt
  ]
]

-- The loop of `remove_connection` takes away as many connections as it counts.
length-remove_connections :
    (socket : ℕ) (cs : List Connection) (s : State) (n : ℕ)
    → let (left, _, count) = remove_connections socket cs s n in length left + count ≡ length cs + n
unfolding remove_connections
length-remove_connections socket [] s n = refl
length-remove_connections socket (c ∷ cs) s n = elim (Bool-cases (c.socket == socket)) [
  | inl hit ↦
      rw (hit, remove_connections)
        (omega
          (arith, length-remove_connections socket cs (remove_all_mappings_for c.socket s) (suc n)))
  | inr miss ↦
      rw (miss, remove_connections) (omega (arith, length-remove_connections socket cs s n))
]

remove_connections_more :
    (socket : ℕ) (cs : List Connection) (s : State) (n : ℕ)
    → n ≤ (remove_connections socket cs s n).2
unfolding remove_connections
remove_connections_more socket [] s n = omega arith
remove_connections_more socket (c ∷ cs) s n = elim (Bool-cases (c.socket == socket)) [
  | inl hit ↦
      rw (hit, remove_connections)
        (omega
          (arith, remove_connections_more socket cs (remove_all_mappings_for c.socket s) (suc n)))
  | inr miss ↦ rw (miss, remove_connections) (remove_connections_more socket cs s n)
]

-- A connection of the list is counted.
remove_connections_found :
    (seen : List Connection) (p : Connection) (rest : List Connection) (s : State) (n : ℕ)
    → n < (remove_connections p.socket (seen ++ p ∷ rest) s n).2
unfolding remove_connections
remove_connections_found [] p rest s n =
    rw (eq_refl p.socket, remove_connections)
      (omega
        (arith, remove_connections_more p.socket rest (remove_all_mappings_for p.socket s) (suc n)))
remove_connections_found (c ∷ seen) p rest s n = elim (Bool-cases (c.socket == p.socket)) [
  | inl hit ↦
      rw (hit, remove_connections)
        (omega (
          arith,
          remove_connections_found seen p rest (remove_all_mappings_for c.socket s) (suc n),
        ))
  | inr miss ↦ rw (miss, remove_connections) (remove_connections_found seen p rest s n)
]

-- A client that is dropped is one client less.
abbrev pub IsFewer : ℕ → State → Type 0
IsFewer n s = length s.connections < n

pub drop_client-Ends :
    (seen : List Connection) (p : Connection) (rest : List Connection) (s : State)
    → Ends
        (IsFewer (length (seen ++ p ∷ rest)))
        (drop_client p (record s { connections = seen ++ p ∷ rest }))
unfolding drop_client remove_connection
drop_client-Ends seen p rest s =
    let before = shutdown_called p.socket (record s { connections = seen ++ p ∷ rest }) in
    let removed = remove_connections p.socket (seen ++ p ∷ rest) before 0 in
    check-Ends (IsFewer (length (seen ++ p ∷ rest))) (leb removed.2 1) _ (
      omega (
        arith,
        length-remove_connections p.socket (seen ++ p ∷ rest) before 0,
        remove_connections_found seen p rest before 0,
      ))

put_r_in_messages-Ends :
    (socket : ℕ) (ps : List Pdu) (s : State) → Ends Anything (put_r_in_messages socket ps s)
unfolding put_r_in_messages
put_r_in_messages-Ends socket [] s = tt
put_r_in_messages-Ends socket (p ∷ ps) s = elim (Bool-cases (ltb 0 socket)) [
  | inl there ↦ rw (there, put_r_in_messages, alloc_in_message) (put_r_in_messages-Ends socket ps _)
  | inr null ↦ rw (null, put_r_in_messages, alloc_in_message) tt
]

pub read_data_from_in_buffer-Ends :
    (p : Connection) (s : State) → Ends Anything (read_data_from_in_buffer p s)
unfolding read_data_from_in_buffer read_pdus_from_recv_buffer
read_data_from_in_buffer-Ends p s =
    >>=-Ends Anything Anything (read_pdus_from_recv_buffer buffer_ksize p.r_buffer) _
      (check-Ends Anything (leb (length p.r_buffer) buffer_ksize) _ (
        with_header-Ends (read_loop (suc (length p.r_buffer)) buffer_ksize) buffer_ksize p.r_buffer
          (read_loop-Ends (suc (length p.r_buffer)) buffer_ksize _ p.r_buffer (omega arith))))
      (λ (ps, left) h.
        >>=-Ends Anything Anything (put_r_in_messages p.socket ps s) _
          (put_r_in_messages-Ends p.socket ps s) (λ s' h'. tt))

send_part-Ends : (p : Connection) (bytes : ℕ) → Ends Anything (send_part p bytes)
unfolding send_part
send_part-Ends p bytes = elim (Bool-cases (bytes == length p.w_buffer)) [
  | inl all ↦ rw all tt
  | inr part ↦ rw part (check-Ends Anything (leb bytes (length p.w_buffer)) _ tt)
]

write_data-Ends : (p : Connection) (took : Sent) → Ends Anything (write_data p took)
unfolding write_data
write_data-Ends p (send_error err) = check-Ends Anything (leb (length p.w_buffer) buffer_ksize) _ tt
write_data-Ends p (sent bytes) =
    check-Ends Anything (leb (length p.w_buffer) buffer_ksize) _
      (elim (Bool-cases (ltb 0 (length p.w_buffer))) [
        | inl more ↦ rw more (send_part-Ends p bytes)
        | inr nothing ↦ rw nothing tt
      ])

pub write_ready-Ends :
    (p : Connection) (w_fd e_fd : FdSet) (took : Sent)
    → Ends Anything (write_ready p w_fd e_fd took)
unfolding write_ready
write_ready-Ends p w_fd e_fd took = elim (Bool-cases (has p.socket e_fd)) [
  | inl out ↦ rw out tt
  | inr fine ↦ elim (Bool-cases (has p.socket w_fd)) [
    | inl ready ↦ rw (fine, ready) (write_data-Ends p took)
    | inr idle ↦ rw (fine, idle) tt
  ]
]
