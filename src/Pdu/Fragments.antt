-- ===== src/Pdu/Fragments.antt =====
-- Reading a stream that the network delivers in pieces.
use muxer.Base.{
  ℕ, suc, ◌+◌, ◌≤◌, ◌≡◌, refl, inl, List, [], ◌∷◌, ◌++◌, arith, length, All, ok, append_assoc,
  ◌>>=◌, ap, sym, ◌∙◌, Outcome, >>=-eq-ok, append-nil, All-append,
}
use muxer.Pdu.{Pdu, with_header, read_loop, read_pdus_from_recv_buffer}
use muxer.Pdu.Framing.{frames, Fits, IsPartial, read_frames}
use muxer.Pdu.Reading.{IsByte, IsSplit, ok-injective, read_sound}

-- A stream has one decomposition into frames.
frames_unique :
    (size : ℕ) (ps qs : List Pdu) (r s : List ℕ)
    → frames ps ++ r ≡ frames qs ++ s
    → All (Fits size) ps
    → All (Fits size) qs
    → IsPartial size r
    → IsPartial size s
    → (ps ≡ qs) × (r ≡ s)
frames_unique size ps qs r s e fp fq pr qr = ground (arith, same)
  where
    f : ℕ
    f = suc (length (frames ps ++ r) + length (frames qs ++ s))

    same : ◌≡◌ {A = Outcome (List Pdu × List ℕ)} (ok (ps, r)) (ok (qs, s))
    same =
        sym (read_frames f size ps r (omega arith) fp pr)
        ∙ ap (with_header (read_loop f size) size) e
        ∙ read_frames f size qs s (omega arith) fq qr

-- A connection's life: the bytes of each `recv` join the buffer, and the buffer is read.
unfoldable pub receive : ℕ → List ℕ → List (List ℕ) → Outcome (List Pdu × List ℕ)
receive size buf [] = ok ([], buf)
receive size buf (c ∷ cs) = do
  (ps, r) ← read_pdus_from_recv_buffer size (buf ++ c)
  (qs, left) ← receive size r cs
  ok (ps ++ qs, left)

abbrev pub join : List (List ℕ) → List ℕ
join [] = []
join (c ∷ cs) = c ++ join cs

frames-append : (ps qs : List Pdu) → frames (ps ++ qs) ≡ frames ps ++ frames qs
unfolding frames
frames-append [] qs = refl
frames-append (p ∷ ps) qs = rw (frames-append ps qs, append_assoc)

All-suffix : (xs ys : List ℕ) → All IsByte (xs ++ ys) → All IsByte ys
All-suffix [] ys h = h
All-suffix (x ∷ xs) ys h = All-suffix xs ys h.1

IsSplit-append :
    (size : ℕ) (buf c rest : List ℕ) (qs qs' : List Pdu) (s s' : List ℕ)
    → IsSplit size (buf ++ c) qs s
    → IsSplit size (s ++ rest) qs' s'
    → IsSplit size (buf ++ (c ++ rest)) (qs ++ qs') s'
IsSplit-append size buf c rest qs qs' s s' h k = (
  sym (append_assoc buf c rest)
      ∙ ap (λ l. l ++ rest) h.0
      ∙ append_assoc (frames qs) s rest
      ∙ ap (λ l. frames qs ++ l) k.0
      ∙ (rw (frames-append, append_assoc)),
  All-append (Fits size) qs qs' h.1 k.1,
  k.2,
)

-- What `receive` hands on is what the stream says.
receive_frames :
    (size : ℕ) (buf : List ℕ) (cs : List (List ℕ)) (ps : List Pdu) (r : List ℕ)
    → 2 ≤ size
    → IsPartial size buf
    → All IsByte buf
    → All (All IsByte) cs
    → receive size buf cs ≡ ok (ps, r)
    → IsSplit size (buf ++ join cs) ps r
unfolding receive frames
receive_frames size buf [] ps r two part bytes all e =
    let eq = ok-injective e in rw (← eq.0, ← eq.1) (append-nil buf, tt, part)
receive_frames size buf (c ∷ cs) ps r two part bytes all e =
    let ((qs, s), first, then_rest) = >>=-eq-ok (read_pdus_from_recv_buffer size (buf ++ c)) _ e in
    let ((qs', s'), second, last) = >>=-eq-ok (receive size s cs) _ then_rest in
    let one = read_sound size (buf ++ c) qs s two (All-append IsByte buf c bytes all.0) first in
    let kept = All-suffix (frames qs) s (rw one.0 at (All-append IsByte buf c bytes all.0)) in
    let two' = receive_frames size s cs qs' s' two one.2 kept all.1 second in
    let eq = ok-injective last in
    rw (← eq.0, ← eq.1) (IsSplit-append size buf c (join cs) qs qs' s s' one two')

-- However the network cuts one stream of bytes into pieces, two receivers that get through it
-- without a failed assertion have found the same PDUs and hold the same rest. The buffer has room
-- for a header.
pub receive_fragmentation :
    (size : ℕ) (cs ds : List (List ℕ)) (ps qs : List Pdu) (r s : List ℕ)
    → 2 ≤ size
    → All (All IsByte) cs
    → All (All IsByte) ds
    → join cs ≡ join ds
    → receive size [] cs ≡ ok (ps, r)
    → receive size [] ds ≡ ok (qs, s)
    → (ps ≡ qs) × (r ≡ s)
receive_fragmentation size cs ds ps qs r s two bc bd e one other =
    let a = receive_frames size [] cs ps r two (inl (omega arith)) tt bc one in
    let b = receive_frames size [] ds qs s two (inl (omega arith)) tt bd other in
    frames_unique size ps qs r s (sym a.0 ∙ e ∙ b.0) a.1 b.1 a.2 b.2
