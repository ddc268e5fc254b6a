-- ===== src/Dispatcher/Delivery.antt =====
-- How muxer/dispatcher.c moves messages into the send buffers and out of them.
use muxer.Base.{
  ℕ, zero, suc, ◌+◌, ◌-◌, ◌≤◌, ◌≡◌, ◌≢◌, refl, arith, Bool, true, false, List, [], ◌∷◌, ◌++◌, ◌==◌,
  has, keep, All, Outcome, ok, ◌>>=◌, ◌∙◌, ap, sym, Option, none, some, length, take, drop,
  length-drop, Bool-cases, inl, inr,
}
use muxer.Pdu.{buffer_ksize}
use muxer.State.{State, Connection, InMessage}
use muxer.Mapping.Removal.{sockets_of}
use muxer.Dispatcher.Buffers.{
  sent, write_data, take_message_for, exists_assoc_socket, keep_valid_messages,
  free_w_in_messages_mapped_to_invalid_sockets,
}

-- Repeated calls of `write_data`, where `send` takes these numbers of bytes: all the bytes that
-- went out, and the connection.
unfoldable pub write_often : Connection → List ℕ → Outcome (List ℕ × Connection)
write_often conn [] = ok ([], conn)
write_often conn (n ∷ ns) = do
  (conn', _) ← write_data conn (sent n)
  (out, last) ← write_often conn' ns
  ok (take n conn.w_buffer ++ out, last)

drop_all : (n : ℕ) (xs : List ℕ) → n ≡ length xs → drop n xs ≡ []
drop_all zero [] e = refl
drop_all zero (x ∷ xs) e = absurd (omega arith)
drop_all (suc n) [] e = refl
drop_all (suc n) (x ∷ xs) e = drop_all n xs (omega arith)

drop_none : (n : ℕ) (xs : List ℕ) → n ≡ 0 → drop n xs ≡ xs
drop_none zero xs e = refl
drop_none (suc n) xs e = absurd (omega arith)

pub write_data-sent :
    (conn : Connection) (n : ℕ)
    → length conn.w_buffer ≤ buffer_ksize
    → n ≤ length conn.w_buffer
    → write_data conn (sent n) ≡ ok (record conn { w_buffer = drop n conn.w_buffer }, true)
unfolding write_data
write_data-sent conn n h k = ground (arith, drop_all n conn.w_buffer, drop_none n conn.w_buffer)

abbrev pub total : List ℕ → ℕ
total [] = 0
total (n ∷ ns) = n + total ns

suc_add : (n m : ℕ) → suc n + m ≡ suc (n + m)
suc_add n m = omega arith

take_nothing {ℓ} : {A : Type ℓ} (n : ℕ) → take {A = A} n [] ≡ []
take_nothing zero = refl
take_nothing (suc n) = refl

drop_nothing {ℓ} : {A : Type ℓ} (n : ℕ) → drop {A = A} n [] ≡ []
drop_nothing zero = refl
drop_nothing (suc n) = refl

zero_add : (n : ℕ) → 0 + n ≡ n
zero_add n = omega arith

take_sum {ℓ} :
    {A : Type ℓ} (n m : ℕ) (xs : List A) → take n xs ++ take m (drop n xs) ≡ take (n + m) xs
take_sum zero m xs = rw (zero_add m) refl
take_sum {A = A} (suc n) m [] = rw (suc_add n m, take_nothing {A = A} m) refl
take_sum (suc n) m (x ∷ xs) = rw (suc_add n m, take_sum n m xs) refl

drop_sum {ℓ} : {A : Type ℓ} (n m : ℕ) (xs : List A) → drop m (drop n xs) ≡ drop (n + m) xs
drop_sum zero m xs = rw (zero_add m) refl
drop_sum {A = A} (suc n) m [] = rw (suc_add n m, drop_nothing {A = A} m) refl
drop_sum (suc n) m (x ∷ xs) = rw (suc_add n m, drop_sum n m xs) refl

-- However `send` splits the bytes over its calls, what goes out is a prefix of the buffer, in order
-- and as long as the calls' total, and the buffer keeps exactly the rest; no assertion fails. The
-- buffer holds no more than its size, and the total is at most what it holds.
pub write_often_lem :
    (conn : Connection) (ns : List ℕ)
    → length conn.w_buffer ≤ buffer_ksize
    → total ns ≤ length conn.w_buffer
    → write_often conn ns
      ≡ ok (take (total ns) conn.w_buffer, record conn { w_buffer = drop (total ns) conn.w_buffer })
unfolding write_often
write_often_lem conn [] h k = refl
write_often_lem conn (n ∷ ns) h k =
    rw
      (
        write_data-sent conn n h (omega arith),
        write_often_lem next ns (omega (arith, left)) (omega (arith, left)),
        take_sum n (total ns) conn.w_buffer,
        drop_sum n (total ns) conn.w_buffer,
      )
      refl
  where
    next : Connection
    next = record conn { w_buffer = drop n conn.w_buffer }

    left : length (drop n conn.w_buffer) ≡ length conn.w_buffer - n
    left = length-drop n conn.w_buffer

-- The messages for one client, in order.
abbrev pub messages_for : ℕ → List InMessage → List InMessage
messages_for socket = keep (λ r. r.socket == socket)

keep_hit {ℓ} :
    {A : Type ℓ} (p : A → Bool) (x : A) (xs : List A) → p x ≡ true → keep p (x ∷ xs) ≡ x ∷ keep p xs
keep_hit p x xs h = rw h refl

keep_miss {ℓ} :
    {A : Type ℓ} (p : A → Bool) (x : A) (xs : List A) → p x ≡ false → keep p (x ∷ xs) ≡ keep p xs
keep_miss p x xs h = rw h refl

-- The first message for the client is the one taken, and another client's messages do not change.
abbrev pub Takes : ℕ → ℕ → List InMessage → Option (InMessage × List InMessage) → Type 0
Takes socket other queue none = messages_for socket queue ≡ []
Takes socket other queue (some (r, left)) =
    (messages_for socket queue ≡ r ∷ messages_for socket left)
    × (messages_for other left ≡ messages_for other queue)

-- The search for a client's next message takes the first message for its socket and leaves the rest
-- of that client's messages in order; the messages for any other socket are untouched and in order.
-- It takes nothing only if there is no message for the socket.
pub take_message_for-Takes :
    (socket other : ℕ) (queue : List InMessage)
    → other ≢ socket
    → Takes socket other queue (take_message_for socket queue)
unfolding take_message_for
take_message_for-Takes socket other [] ne = refl
take_message_for-Takes socket other (r ∷ rest) ne =
    after (take_message_for socket rest) (take_message_for-Takes socket other rest ne)
  where
    is_for : InMessage → Bool
    is_for r = r.socket == socket

    after :
        (found : Option (InMessage × List InMessage))
        → Takes socket other rest found
        → Takes socket other (r ∷ rest) (elim (r.socket == socket) [
          | true ↦ some (r, rest)
          | false ↦ elim found [ none ↦ none | some (m, left) ↦ some (m, r ∷ left) ]
        ])
    after none t = elim (Bool-cases (r.socket == socket)) [
      | inl hit ↦ rw hit (keep_hit is_for r rest hit, ground arith)
      | inr miss ↦ rw miss (keep_miss is_for r rest miss ∙ t)
    ]
    after (some (m, left)) t = elim (Bool-cases (r.socket == socket)) [
      | inl hit ↦ rw hit (keep_hit is_for r rest hit, ground arith)
      | inr miss ↦ rw miss (
        keep_miss is_for r rest miss ∙ t.0 ∙ ap (λ l. m ∷ l) (sym (keep_miss is_for r left miss)),
        rw t.1 refl,
      )
    ]

exists_assoc_socket_lem :
    (socket : ℕ) (cs : List Connection)
    → All (λ c. length c.w_buffer ≤ buffer_ksize) cs
    → exists_assoc_socket socket cs ≡ ok (has socket (sockets_of cs))
unfolding exists_assoc_socket
exists_assoc_socket_lem socket [] h = refl
exists_assoc_socket_lem socket (c ∷ cs) h = ground (arith, exists_assoc_socket_lem socket cs h.1)

abbrev pub has_client : List Connection → InMessage → Bool
has_client cs r = has r.socket (sockets_of cs)

keep_valid_messages_lem :
    (cs : List Connection) (ms : List InMessage)
    → All (λ c. length c.w_buffer ≤ buffer_ksize) cs
    → keep_valid_messages cs ms ≡ ok (keep (has_client cs) ms)
unfolding keep_valid_messages
keep_valid_messages_lem cs [] h = refl
keep_valid_messages_lem cs (m ∷ ms) h =
    rw (exists_assoc_socket_lem m.socket cs h, keep_valid_messages_lem cs ms h)

-- If no client's send buffer holds more than its size, the purge drops exactly the messages whose
-- client is not connected, keeps the others in order, and changes nothing else.
pub free_w_in_messages_lem :
    (s : State)
    → All (λ c. length c.w_buffer ≤ buffer_ksize) s.connections
    → free_w_in_messages_mapped_to_invalid_sockets s
      ≡ ok (record s { w_in_messages = keep (has_client s.connections) s.w_in_messages })
unfolding free_w_in_messages_mapped_to_invalid_sockets
free_w_in_messages_lem s h = rw (keep_valid_messages_lem s.connections s.w_in_messages h)
