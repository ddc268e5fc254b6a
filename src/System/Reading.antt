-- ===== src/System/Reading.antt =====
-- What the reading thread does to a well-formed state: accepting a client, and reading from the
-- server and from the clients.
use muxer.Base.{
  ℕ, suc, ◌≤◌, ◌<◌, ◌≡◌, refl, arith, Bool, true, false, List, [], ◌∷◌, ◌++◌, length, length-append,
  ap, All, All-append, has, ok, Returns, Returns-imp, >>=-Returns, if◌then◌else◌, le→leb, lt→ltb,
  Bool-cases, inl, inr,
}
use muxer.Pdu.{Pdu, read_pdus_from_recv_buffer, buffer_ksize}
use muxer.Pdu.Framing.{frames, IsPartial, read_frames}
use muxer.State.{State, Connection}
use muxer.Protocol.{Codec}
use muxer.Message.{alloc_in_message, alloc_out_message}
use muxer.Dispatcher.Buffers.{
  Received, received, recv_error, read_data, put_r_in_messages, put_r_out_messages,
  read_data_from_in_buffer, read_data_from_out_buffer,
}
use muxer.Dispatcher.Sockets.{FdSet, read_ready, cleared}
use muxer.System.{Sound, IsClient, IsConnection, IsRequest, IsAnswer, Carries, Arrives}
use muxer.System.Clients.{Expects, Expects-done}

-- A connection whose reading buffer may hold whole frames.
abbrev pub IsRead : (Pdu → Type 0) → Connection → Type 0
IsRead P c =
    (length c.r_buffer ≤ buffer_ksize) × Carries P c.r_buffer × (length c.w_buffer ≤ buffer_ksize)

Carries-partial : (P : Pdu → Type 0) (buf : List ℕ) → IsPartial buffer_ksize buf → Carries P buf
unfolding frames
Carries-partial P buf part = ([], buf, (refl, tt, part), tt)

read_data-Returns :
    (P : Pdu → Type 0) (c : Connection) (got : Received)
    → IsConnection c
    → Arrives P c got
    → Returns
        (λ (c', fine). (c'.socket ≡ c.socket) × IsRead P c' × (fine ≡ false → IsConnection c'))
        (read_data c got)
unfolding read_data
read_data-Returns P c (received []) conn arrives =
    rw (le→leb (length c.r_buffer) buffer_ksize conn.1)
      (refl, (conn.1, Carries-partial P c.r_buffer conn.0, conn.2), λ e. conn)
read_data-Returns P c (received (b ∷ bs)) conn arrives =
    rw
      (
        le→leb (length c.r_buffer) buffer_ksize conn.1,
        le→leb (length (c.r_buffer ++ b ∷ bs)) buffer_ksize arrives.0,
      )
      (refl, (arrives.0, arrives.1, conn.2), λ e. absurd (cc e))
read_data-Returns P c (recv_error err) conn arrives =
    rw (le→leb (length c.r_buffer) buffer_ksize conn.1)
      (refl, (conn.1, Carries-partial P c.r_buffer conn.0, conn.2), λ e. conn)

-- What the reading of one connection comes to. `C` is what is expected of the sockets in the set.
abbrev pub Ready :
    (Pdu → Type 0) → (Connection → Type 0) → FdSet → FdSet → Connection → Connection × Bool → Type 0
Ready P C r_fd e_fd c (c', fine) =
    (c'.socket ≡ c.socket)
    × IsRead P c'
    × (fine ≡ true
        → (q : Connection) → q.socket ≡ c.socket
        → Expects C (cleared c.socket r_fd e_fd).0 q)
    × (fine ≡ false → IsConnection c')

read_ready_out :
    (c : Connection) (r_fd e_fd : FdSet) (got : Received)
    → has c.socket e_fd ≡ true
    → read_ready c r_fd e_fd got ≡ ok (c, false)
unfolding read_ready
read_ready_out c r_fd e_fd got out = rw out refl

read_ready_in :
    (c : Connection) (r_fd e_fd : FdSet) (got : Received)
    → has c.socket e_fd ≡ false
    → read_ready c r_fd e_fd got ≡ (if has c.socket r_fd then read_data c got else ok (c, true))
unfolding read_ready
read_ready_in c r_fd e_fd got fine = rw fine refl

pub read_ready-Returns :
    (P : Pdu → Type 0) (C : Connection → Type 0) (c : Connection) (r_fd e_fd : FdSet)
    (got : Received)
    → IsConnection c
    → (has c.socket r_fd ≡ true → Arrives P c got)
    → Returns (Ready P C r_fd e_fd c) (read_ready c r_fd e_fd got)
read_ready-Returns P C c r_fd e_fd got conn arrives = elim (Bool-cases (has c.socket e_fd)) [
  | inl out ↦
      rw (read_ready_out c r_fd e_fd got out) (refl, as_was, (λ e. absurd (cc e)), λ e. conn)
  | inr fine ↦
      let done : (q : Connection)
          → q.socket ≡ c.socket
          → Expects C (cleared c.socket r_fd e_fd).0 q =
        λ q e. Expects-done C c.socket r_fd e_fd q e fine in
      rw (read_ready_in c r_fd e_fd got fine) (elim (Bool-cases (has c.socket r_fd)) [
        | inl there ↦ rw there (
            Returns-imp _ (Ready P C r_fd e_fd c) (read_data c got)
              (λ (c', fine') (same, served, kept). (same, served, (λ e. done), kept))
              (read_data-Returns P c got conn (arrives there)))
        | inr idle ↦ rw idle (refl, as_was, (λ e. done), λ e. conn)
      ])
]
  where
    as_was : IsRead P c
    as_was = (conn.1, Carries-partial P c.r_buffer conn.0, conn.2)

put_r_in_messages-Returns :
    (codec : Codec) (socket : ℕ) (ps : List Pdu) (s : State)
    → Sound codec s
    → 0 < socket
    → All (IsRequest codec) ps
    → Returns (Sound codec) (put_r_in_messages socket ps s)
unfolding put_r_in_messages
put_r_in_messages-Returns codec socket [] s h pos all = h
put_r_in_messages-Returns codec socket (p ∷ ps) s h pos all =
    rw (lt→ltb 0 socket pos, alloc_in_message)
      (put_r_in_messages-Returns codec socket ps _
        (record {
          mappings = h.mappings;
          requests = All-append _ s.r_in_messages _ h.requests ((pos, all.0), tt);
          answers = h.answers;
          to_clients = h.to_clients;
          to_server = h.to_server;
          server = h.server;
          counter = h.counter;
        })
        pos all.1)

put_r_out_messages-Returns :
    (codec : Codec) (ps : List Pdu) (s : State)
    → Sound codec s
    → All (IsAnswer codec) ps
    → Returns (λ s'. Sound codec s' × (s'.connections ≡ s.connections)) (put_r_out_messages ps s)
unfolding put_r_out_messages alloc_out_message
put_r_out_messages-Returns codec [] s h all = (h, refl)
put_r_out_messages-Returns codec (p ∷ ps) s h all =
    put_r_out_messages-Returns codec ps _
      (record {
        mappings = h.mappings;
        requests = h.requests;
        answers = All-append _ s.r_out_messages _ h.answers (all.0, tt);
        to_clients = h.to_clients;
        to_server = h.to_server;
        server = h.server;
        counter = h.counter;
      })
      all.1

-- The buffer is taken apart into its frames and the incomplete one.
read_pdus_lem :
    (P : Pdu → Type 0) (buf : List ℕ)
    → length buf ≤ buffer_ksize
    → (carries : Carries P buf)
    → read_pdus_from_recv_buffer buffer_ksize buf ≡ ok (carries.0, carries.1)
unfolding read_pdus_from_recv_buffer
read_pdus_lem P buf room (ps, r, (split, fits, part), all) =
    rw (le→leb (length buf) buffer_ksize room, split)
      (read_frames (suc (length (frames ps ++ r))) buffer_ksize ps r (omega arith) fits part)

rest_short : (ps : List Pdu) (r buf : List ℕ) → buf ≡ frames ps ++ r → length r ≤ length buf
rest_short ps r buf e = omega (arith, ap length e, length-append (frames ps) r)

-- Every frame becomes a request, and the connection keeps the incomplete one.
pub read_data_from_in_buffer-Returns :
    (codec : Codec) (c : Connection) (s : State)
    → Sound codec s
    → 0 < c.socket
    → IsRead (IsRequest codec) c
    → Returns
        (λ (c', s'). (c'.socket ≡ c.socket) × IsClient c' × Sound codec s')
        (read_data_from_in_buffer c s)
unfolding read_data_from_in_buffer
read_data_from_in_buffer-Returns codec c s h pos (room, carries, w) =
    let (ps, r, (split, fits, part), all) = carries in
    let small = rest_short ps r c.r_buffer split in
    rw (read_pdus_lem (IsRequest codec) c.r_buffer room carries) (
      >>=-Returns (Sound codec) _ (put_r_in_messages c.socket ps s) _
        (put_r_in_messages-Returns codec c.socket ps s h pos all)
        (λ s' sound. (refl, (pos, (part, omega arith, w)), sound)))

pub read_data_from_out_buffer-Returns :
    (codec : Codec) (s : State) (c : Connection)
    → Sound codec s
    → IsRead (IsAnswer codec) c
    → Returns
        (λ s'. Sound codec s' × (s'.connections ≡ s.connections))
        (read_data_from_out_buffer (record s { out_connection = c }))
unfolding read_data_from_out_buffer
read_data_from_out_buffer-Returns codec s c h (room, carries, w) =
    let (ps, r, (split, fits, part), all) = carries in
    let small = rest_short ps r c.r_buffer split in
    rw (read_pdus_lem (IsAnswer codec) c.r_buffer room carries) (
      put_r_out_messages-Returns codec ps _
        (record {
          mappings = h.mappings;
          requests = h.requests;
          answers = h.answers;
          to_clients = h.to_clients;
          to_server = h.to_server;
          server = (part, omega arith, w);
          counter = h.counter;
        })
        all)
