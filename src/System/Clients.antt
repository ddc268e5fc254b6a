-- ===== src/System/Clients.antt =====
-- Lists of clients without a shared socket, when one is replaced, added or removed.
use muxer.Base.{
  ℕ, ◌≤◌, ◌<◌, ◌≡◌, ◌≢◌, refl, arith, Bool, true, false, List, [], ◌∷◌, ◌++◌, length, All, keep,
  has, Bool-cases, inl, inr, eq_refl, All-keep, sym, ◌∙◌,
}
use muxer.State.{Connection}
use muxer.Connection.Removal.{IsDistinct, other_than}
use muxer.Mapping.Removal.{sockets_of}
use muxer.Dispatcher.Sockets.{FdSet, fd_clr, cleared}

-- None of the clients has the socket.
abbrev pub IsFree : ℕ → List Connection → Type 0
IsFree socket cs = All (λ c. c.socket ≢ socket) cs

IsFree-replace :
    (socket : ℕ) (seen : List Connection) (p q : Connection) (rest : List Connection)
    → q.socket ≡ p.socket
    → IsFree socket (seen ++ p ∷ rest)
    → IsFree socket (seen ++ q ∷ rest)
IsFree-replace socket [] p q rest e h = (λ e'. h.0 (sym e ∙ e'), h.1)
IsFree-replace socket (c ∷ seen) p q rest e h = (h.0, IsFree-replace socket seen p q rest e h.1)

pub IsDistinct-replace :
    (seen : List Connection) (p q : Connection) (rest : List Connection)
    → q.socket ≡ p.socket
    → IsDistinct (seen ++ p ∷ rest)
    → IsDistinct (seen ++ q ∷ rest)
IsDistinct-replace [] p q rest e h = (rw e h.0, h.1)
IsDistinct-replace (c ∷ seen) p q rest e h =
    (IsFree-replace c.socket seen p q rest e h.0, IsDistinct-replace seen p q rest e h.1)

pub IsDistinct-keep :
    (p : Connection → Bool) (cs : List Connection) → IsDistinct cs → IsDistinct (keep p cs)
IsDistinct-keep p [] h = tt
IsDistinct-keep p (c ∷ cs) h = elim (Bool-cases (p c)) [
  | inl hit ↦
      rw (hit, keep) (All-keep (λ d. d.socket ≢ c.socket) p cs h.0, IsDistinct-keep p cs h.1)
  | inr miss ↦ rw (miss, keep) (IsDistinct-keep p cs h.1)
]

IsFree-append :
    (socket : ℕ) (cs : List Connection) (c : Connection)
    → IsFree socket cs
    → c.socket ≢ socket
    → IsFree socket (cs ++ c ∷ [])
IsFree-append socket [] c h ne = (ne, tt)
IsFree-append socket (d ∷ cs) c h ne = (h.0, IsFree-append socket cs c h.1 ne)

-- A client with a new socket joins.
pub IsDistinct-append :
    (cs : List Connection) (c : Connection)
    → IsDistinct cs
    → IsFree c.socket cs
    → IsDistinct (cs ++ c ∷ [])
IsDistinct-append [] c h new = (tt, tt)
IsDistinct-append (d ∷ cs) c h new =
    (IsFree-append d.socket cs c h.0 (λ e. new.0 (sym e)), IsDistinct-append cs c h.1 new.1)

length-keep : (p : Connection → Bool) (cs : List Connection) → length (keep p cs) ≤ length cs
length-keep p [] = omega arith
length-keep p (c ∷ cs) = ground (arith, length-keep p cs)

-- The client that is removed was there, and one less is left.
pub length-keep_less :
    (seen : List Connection) (p : Connection) (rest : List Connection)
    → length (keep (other_than p.socket) (seen ++ p ∷ rest)) < length (seen ++ p ∷ rest)
length-keep_less [] p rest =
    rw (eq_refl p.socket, keep) (omega (arith, length-keep (other_than p.socket) rest))
length-keep_less (c ∷ seen) p rest = ground (arith, length-keep_less seen p rest)

pub has-there :
    (seen : List Connection) (p : Connection) (rest : List Connection)
    → has p.socket (sockets_of (seen ++ p ∷ rest)) ≡ true
has-there [] p rest = rw (eq_refl p.socket) refl
has-there (c ∷ seen) p rest = ground (arith, has-there seen p rest)

has-fd_clr : (x socket : ℕ) (fd : FdSet) → has x (fd_clr socket fd) ≡ true → has x fd ≡ true
has-fd_clr x socket [] h = h
has-fd_clr x socket (y ∷ fd) h = ground (arith, has-fd_clr x socket fd)

has-fd_clr_self : (socket : ℕ) (fd : FdSet) → has socket (fd_clr socket fd) ≡ false
has-fd_clr_self socket [] = refl
has-fd_clr_self socket (y ∷ fd) = ground (arith, has-fd_clr_self socket fd)

-- The condition is met by a client in the set.
abbrev pub Expects : (Connection → Type 0) → FdSet → Connection → Type 0
Expects C fd c = has c.socket fd ≡ true → C c

pub Expects-cleared :
    (C : Connection → Type 0) (socket : ℕ) (fd e_fd : FdSet) (c : Connection)
    → Expects C fd c
    → Expects C (cleared socket fd e_fd).0 c
Expects-cleared C socket fd e_fd c h = elim (Bool-cases (has socket e_fd)) [
  | inl out ↦ rw out h
  | inr fine ↦ rw fine (λ there. h (has-fd_clr c.socket socket fd there))
]

-- A client that has been dealt with is no longer in the set, unless there is an exception.
pub Expects-done :
    (C : Connection → Type 0) (socket : ℕ) (fd e_fd : FdSet) (c : Connection)
    → c.socket ≡ socket
    → has socket e_fd ≡ false
    → Expects C (cleared socket fd e_fd).0 c
Expects-done C socket fd e_fd c e fine = rw (fine, e) (λ there. cc (has-fd_clr_self socket fd))
