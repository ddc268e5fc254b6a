-- ===== src/System/Loops.antt =====
-- What one round of the loops over the clients in muxer/dispatcher.c keeps.
use muxer.Base.{
  ℕ, suc, ◌+◌, ◌*◌, ◌<◌, ◌≡◌, refl, arith, Bool, List, [], ◌∷◌, ◌++◌, length, length-append, All,
  All-keep, All-imp, All-replace, keep, Outcome, ◌>>=◌, Returns, >>=-Returns, append_assoc, eq_refl,
  ◌∙◌, ap,
}
use muxer.State.{State, Connection}
use muxer.Connection.{shutdown_called}
use muxer.Connection.Removal.{IsDistinct, other_than, remove_connection_lem}
use muxer.Protocol.{Codec}
use muxer.Dispatcher.Sockets.{FdSet, drop_client, cleared}
use muxer.Dispatcher.Rounds.{Bound, again}
use muxer.System.{Sound, WellFormed, AreClients, IsClient, IsConnection, IsMapping}
use muxer.System.Clients.{
  IsDistinct-replace, IsDistinct-keep, length-keep_less, has-there, Expects, Expects-cleared,
}

module _ (codec : Codec) (s : State) (h : Sound codec s) where
  pub Sound-clients : (cs : List Connection) → Sound codec (record s { connections = cs })
  Sound-clients cs = record {
    mappings = h.mappings;
    requests = h.requests;
    answers = h.answers;
    to_clients = h.to_clients;
    to_server = h.to_server;
    server = h.server;
    counter = h.counter;
  }

  pub Sound-server :
      (c : Connection) (clean : Bool)
      → IsConnection c
      → Sound codec (record s { out_connection = c; event_do_cleanup = clean })
  Sound-server c clean conn = record {
    mappings = h.mappings;
    requests = h.requests;
    answers = h.answers;
    to_clients = h.to_clients;
    to_server = h.to_server;
    server = conn;
    counter = h.counter;
  }

  pub drop_client-Returns :
      (p : Connection) (seen rest : List Connection)
      → IsDistinct (seen ++ p ∷ rest)
      → Returns
          (λ s'. Sound codec s' × (s'.connections ≡ keep (other_than p.socket) (seen ++ p ∷ rest)))
          (drop_client p (record s { connections = seen ++ p ∷ rest }))
  unfolding drop_client shutdown_called
  drop_client-Returns p seen rest distinct =
      rw
        (
          remove_connection_lem p.socket
              (shutdown_called p.socket (record s { connections = seen ++ p ∷ rest })) distinct,
          has-there seen p rest,
        )
        (
          record {
            mappings = All-keep IsMapping _ s.socket_to_recv_unicast_msg h.mappings;
            requests = h.requests;
            answers = h.answers;
            to_clients = h.to_clients;
            to_server = h.to_server;
            server = h.server;
            counter = h.counter;
          },
          refl,
        )

keep-replace :
    (seen : List Connection) (p q : Connection) (rest : List Connection)
    → q.socket ≡ p.socket
    → keep (other_than q.socket) (seen ++ q ∷ rest) ≡ keep (other_than p.socket) (seen ++ p ∷ rest)
keep-replace [] p q rest e =
    rw (eq_refl q.socket, eq_refl p.socket, keep) (ap (λ k. keep (other_than k) rest) e)
keep-replace (c ∷ seen) p q rest e = ground (arith, keep-replace seen p q rest e)

-- The clients, and what is expected of those in the set.
abbrev pub Serves : (Connection → Type 0) → FdSet → List Connection → Type 0
Serves C fd cs = AreClients cs × All (Expects C fd) cs

-- One round of a loop, given that the loop with one round less does its work.
module _ (codec : Codec) (C : Connection → Type 0) (fuel n : ℕ)
    (loop : List Connection → List Connection → FdSet → FdSet → State → Outcome State)
    (ih : (k : ℕ) (seen todo : List Connection) (fd e_fd : FdSet) (s : State)
      → Bound fuel k seen todo
      → Sound codec s
      → Serves C fd (seen ++ todo)
      → Returns (WellFormed codec) (loop seen todo fd e_fd s))
    (seen : List Connection) (p : Connection) (rest : List Connection) (fd e_fd : FdSet)
    (e : n ≡ length seen + suc (length rest)) (f : n * n + suc (length rest) < suc fuel)
    (serves : Serves C fd (seen ++ p ∷ rest)) where
  all_cleared : All (Expects C (cleared p.socket fd e_fd).0) (seen ++ p ∷ rest)
  all_cleared = All-imp (seen ++ p ∷ rest) (Expects-cleared C p.socket fd e_fd) serves.1

  -- The client has failed.
  pub begin_anew-Returns :
      (q : Connection) (s : State)
      → q.socket ≡ p.socket
      → Sound codec s
      → Returns (WellFormed codec) (
          drop_client q (record s { connections = seen ++ q ∷ rest }) >>= λ s'.
          loop [] s'.connections (cleared p.socket fd e_fd).0 (cleared p.socket fd e_fd).1 s')
  begin_anew-Returns q s same sound =
      >>=-Returns
        (λ s'. Sound codec s' × (s'.connections ≡ keep (other_than q.socket) (seen ++ q ∷ rest)))
        (WellFormed codec) (drop_client q (record s { connections = seen ++ q ∷ rest })) _
        (drop_client-Returns codec s sound q seen rest
          (IsDistinct-replace seen p q rest same serves.0.0))
        (λ s' (sound', left).
          let left' = left ∙ keep-replace seen p q rest same in
          let fewer = length-keep_less seen p rest in
          let size : length s'.connections < length (seen ++ p ∷ rest) = rw left' fewer in
          ih (length s'.connections) [] s'.connections (cleared p.socket fd e_fd).0
            (cleared p.socket fd e_fd).1 s'
            (
              omega arith,
              again fuel n (length s'.connections) (length rest)
                  (omega (arith, length-append seen (p ∷ rest))) f,
            )
            sound'
            (rw left' (
              (
                IsDistinct-keep _ (seen ++ p ∷ rest) serves.0.0,
                All-keep IsClient _ (seen ++ p ∷ rest) serves.0.1,
              ),
              All-keep (Expects C (cleared p.socket fd e_fd).0) _ (seen ++ p ∷ rest) all_cleared,
            )))

  -- The client has been served.
  pub go_on-Returns :
      (q : Connection) (s : State)
      → q.socket ≡ p.socket
      → IsClient q
      → Expects C (cleared p.socket fd e_fd).0 q
      → Sound codec s
      → Returns
          (WellFormed codec)
          (loop (seen ++ q ∷ []) rest (cleared p.socket fd e_fd).0 (cleared p.socket fd e_fd).1 s)
  go_on-Returns q s same client expects sound =
      ih n (seen ++ q ∷ []) rest (cleared p.socket fd e_fd).0 (cleared p.socket fd e_fd).1 s
        (omega (arith, length-append seen (q ∷ [])), omega arith) sound
        (rw (append_assoc seen (q ∷ []) rest) (
          (
            IsDistinct-replace seen p q rest same serves.0.0,
            All-replace IsClient seen p q rest client serves.0.1,
          ),
          All-replace (Expects C (cleared p.socket fd e_fd).0) seen p q rest expects all_cleared,
        ))
