-- ===== src/Pdu/Reading.antt =====
-- What `read_pdus_from_recv_buffer` of common/pdu.c makes of a buffer, by what stands in it.
use muxer.Base.{
  ℕ, zero, suc, ◌+◌, ◌*◌, ◌/◌, ◌%◌, ◌≤◌, ◌<◌, ◌≡◌, refl, ◌⊎◌, inl, inr, List, [], ◌∷◌, ◌++◌, arith,
  length, length-drop, length-take, take-append-drop, All, ok, abort, append_assoc, ◌>>=◌, take,
  drop, le→leb, ap, sym, ◌∙◌, Outcome, dec_lt, lt→leb,
}
use muxer.Pdu.{Pdu, header_of, with_header, read_loop, read_pdus_from_recv_buffer}
use muxer.Pdu.Framing.{frame, frames, Fits, IsPartial, read_partial, read_step}

abbrev pub IsByte : ℕ → Type 0
IsByte b = b < 256

All-drop : (n : ℕ) (xs : List ℕ) → All IsByte xs → All IsByte (drop n xs)
All-drop zero xs h = h
All-drop (suc n) [] h = tt
All-drop (suc n) (x ∷ xs) h = All-drop n xs h.1

-- A buffer that holds a whole frame is that frame and the rest.
frame-take :
    (buf : List ℕ)
    → All IsByte buf
    → header_of buf + 2 ≤ length buf
    → frame (take (header_of buf) (drop 2 buf)) ++ drop (header_of buf + 2) buf ≡ buf
unfolding frame header_of
frame-take [] bytes h = absurd (omega arith)
frame-take (b ∷ []) bytes h = absurd (omega arith)
frame-take (hi ∷ lo ∷ buf) bytes h =
    let n = hi * 256 + lo in
    let len : length (take n buf) ≡ n = length-take n buf (omega arith) in
    let e : n + 2 ≡ suc (suc n) = omega arith in
    let d : n / 256 ≡ hi = omega arith in
    let m : n % 256 ≡ lo = omega arith in
    rw (e, len, d, m) (ap (λ l. hi ∷ lo ∷ l) (take-append-drop n buf))

-- The outcome of reading a buffer, by what stands in it.
abbrev pub Read : ℕ → List ℕ → Outcome (List Pdu × List ℕ) → Type 0
Read size buf o =
    ((ps : List Pdu) × (r : List ℕ) × (o ≡ ok (ps, r))
      × (buf ≡ frames ps ++ r)
      × All (Fits size) ps
      × IsPartial size r)
    ⊎ ((ps : List Pdu) × (r : List ℕ) × (o ≡ abort)
        × (buf ≡ frames ps ++ r)
        × All (Fits size) ps
        × (2 ≤ length r)
        × (size < header_of r + 2))

Read-cons :
    (size : ℕ) (p : Pdu) (rest buf : List ℕ) (o : Outcome (List Pdu × List ℕ))
    → Fits size p
    → frame p ++ rest ≡ buf
    → Read size rest o
    → Read size buf (o >>= λ (ps, left). ok (p ∷ ps, left))
unfolding frames
Read-cons size p rest buf o fit e (inl (ps, r, done, split, fits, part)) =
    inl (p ∷ ps, r, rw done, rw (append_assoc, ← split, e), (fit, fits), part)
Read-cons size p rest buf o fit e (inr (ps, r, done, split, fits, long, bad)) =
    inr (p ∷ ps, r, rw done, rw (append_assoc, ← split, e), (fit, fits), long, bad)

read_rejected :
    (f size : ℕ) (buf : List ℕ)
    → 2 ≤ length buf
    → 2 ≤ size
    → size < header_of buf + 2
    → with_header (read_loop f size) size buf ≡ abort
unfolding with_header
read_rejected f size buf long two bad = ground arith

read_loop-Read :
    (f size : ℕ) (buf : List ℕ)
    → 2 ≤ size
    → All IsByte buf
    → length buf < f
    → Read size buf (with_header (read_loop f size) size buf)
unfolding frames
read_loop-Read zero size buf two bytes h = absurd (omega arith)
read_loop-Read (suc f) size buf two bytes h = elim (dec_lt (length buf) 2) [
  | yes short ↦ stop (inl short)
  | no long ↦ elim (dec_lt size (header_of buf + 2)) [
    | yes bad ↦
        inr (
          [],
          buf,
          read_rejected (suc f) size buf (omega arith) two bad,
          refl,
          tt,
          omega arith,
          bad,
        )
    | no good ↦ elim (dec_lt 0 (header_of buf)) [
      | no none_announced ↦ stop (inr (omega arith, inl (omega arith)))
      | yes pos ↦ elim (dec_lt (length buf) (header_of buf + 2)) [
        | yes part ↦ stop (inr (omega arith, inr part))
        | no whole ↦
            let len : length (take (header_of buf) (drop 2 buf)) ≡ header_of buf =
              length-take (header_of buf) (drop 2 buf) (omega (arith, length-drop 2 buf)) in
            rw (read_step f size buf pos (omega arith) (omega arith)) (
              Read-cons size (take (header_of buf) (drop 2 buf)) (drop (header_of buf + 2) buf) buf
                _ (omega arith, omega arith) (frame-take buf bytes (omega arith))
                (read_loop-Read f size (drop (header_of buf + 2) buf) two
                  (All-drop (header_of buf + 2) buf bytes)
                  (omega (arith, length-drop (header_of buf + 2) buf))))
      ]
    ]
  ]
]
  where
    stop : IsPartial size buf → Read size buf (with_header (read_loop (suc f) size) size buf)
    stop part = inl ([], buf, read_partial (suc f) size buf h part, refl, tt, part)

-- Every buffer of bytes is read as whole frames in order. What is left is an incomplete frame; or
-- the reader fails an assertion, and then a header was reached that announces more than a buffer
-- can hold. It never runs out of fuel. The buffer has room for a header and its content fits.
pub read_pdus_from_recv_buffer-Read :
    (size : ℕ) (buf : List ℕ)
    → 2 ≤ size
    → length buf ≤ size
    → All IsByte buf
    → Read size buf (read_pdus_from_recv_buffer size buf)
unfolding read_pdus_from_recv_buffer
read_pdus_from_recv_buffer-Read size buf two room bytes =
    rw (le→leb (length buf) size room)
      (read_loop-Read (suc (length buf)) size buf two bytes (omega arith))

read_overflow :
    (size : ℕ) (buf : List ℕ) → size < length buf → read_pdus_from_recv_buffer size buf ≡ abort
unfolding read_pdus_from_recv_buffer
read_overflow size buf over = rw (lt→leb (length buf) size over)

pub ok-injective :
    {ps qs : List Pdu} {r s : List ℕ}
    → ◌≡◌ {A = Outcome (List Pdu × List ℕ)} (ok (ps, r)) (ok (qs, s))
    → (ps ≡ qs) × (r ≡ s)
ok-injective e = ground arith

-- `ps` and `r` are the frames and the rest of a stream.
abbrev pub IsSplit : ℕ → List ℕ → List Pdu → List ℕ → Type 0
IsSplit size stream ps r = (stream ≡ frames ps ++ r) × All (Fits size) ps × IsPartial size r

-- What a successful reading says of the buffer.
pub read_sound :
    (size : ℕ) (buf : List ℕ) (ps : List Pdu) (r : List ℕ)
    → 2 ≤ size
    → All IsByte buf
    → read_pdus_from_recv_buffer size buf ≡ ok (ps, r)
    → IsSplit size buf ps r
read_sound size buf ps r two bytes e = elim (dec_lt size (length buf)) [
  | yes over ↦ cc (read_overflow size buf over)
  | no room ↦ elim (read_pdus_from_recv_buffer-Read size buf two (omega arith) bytes) [
    | inl (qs, s, done, split, fits, part) ↦
        let eq = ok-injective (sym e ∙ done) in rw (eq.0, eq.1) (split, fits, part)
    | inr (_, _, aborts, _, _, _, _) ↦ cc
  ]
]
