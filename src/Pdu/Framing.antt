-- ===== src/Pdu/Framing.antt =====
-- What the framing of common/pdu.c means: a stream is whole frames and an incomplete rest.
use muxer.Base.{
  ℕ, zero, suc, ◌+◌, ◌/◌, ◌%◌, ◌≤◌, ◌<◌, ◌≡◌, ◌⊎◌, List, [], ◌∷◌, ◌++◌, arith, length,
  length-append, take-append, drop-append, All, ok, append_assoc, ◌>>=◌, take, drop, ap,
}
use muxer.Pdu.{Pdu, header_of, with_header, read_loop}

-- A header of two bytes, the high one first, and the payload.
unfoldable pub frame : Pdu → List ℕ
frame p = (length p / 256) ∷ (length p % 256) ∷ p

unfoldable pub frames : List Pdu → List ℕ
frames [] = []
frames (p ∷ ps) = frame p ++ frames ps

-- The payloads that a buffer of `size` bytes can carry.
abbrev pub Fits : ℕ → Pdu → Type 0
Fits size p = (0 < length p) × (length p + 2 ≤ size)

-- No whole frame stands at the front, and a header that does stand there is acceptable.
abbrev pub IsPartial : ℕ → List ℕ → Type 0
IsPartial size r =
    (length r < 2) ⊎ ((header_of r + 2 ≤ size) × ((header_of r ≡ 0) ⊎ (length r < header_of r + 2)))

pub read_partial :
    (f size : ℕ) (r : List ℕ)
    → length r < f
    → IsPartial size r
    → with_header (read_loop f size) size r ≡ ok ([], r)
unfolding with_header read_loop
read_partial zero size r h part = absurd (omega arith)
read_partial (suc f) size r h part = ground arith

pub header_of-frame : (p : Pdu) (rest : List ℕ) → header_of (frame p ++ rest) ≡ length p
unfolding header_of frame
header_of-frame p rest = omega arith

pub length-frame : (p : Pdu) (rest : List ℕ) → length (frame p ++ rest) ≡ 2 + length p + length rest
unfolding frame
length-frame p rest = omega (arith, length-append p rest)

-- One round of the loop takes the payload that the header announces.
pub read_step :
    (f size : ℕ) (buf : List ℕ)
    → 0 < header_of buf
    → header_of buf + 2 ≤ size
    → header_of buf + 2 ≤ length buf
    → with_header (read_loop (suc f) size) size buf ≡ (
        with_header (read_loop f size) size (drop (header_of buf + 2) buf) >>= λ (ps, left).
        ok (take (header_of buf) (drop 2 buf) ∷ ps, left))
unfolding with_header read_loop
read_step f size buf pos small whole = ground arith

drop-frame : (p : Pdu) (rest : List ℕ) → drop (length p + 2) (frame p ++ rest) ≡ rest
unfolding frame
drop-frame p rest =
    let e : length p + 2 ≡ suc (suc (length p)) = omega arith in rw e (drop-append p rest)

take-frame : (p : Pdu) (rest : List ℕ) → take (length p) (drop 2 (frame p ++ rest)) ≡ p
unfolding frame
take-frame p rest = take-append p rest

pub read_frame :
    (f size : ℕ) (p : Pdu) (rest : List ℕ)
    → Fits size p
    → with_header (read_loop (suc f) size) size (frame p ++ rest)
      ≡ (with_header (read_loop f size) size rest >>= λ (ps, left). ok (p ∷ ps, left))
read_frame f size p rest fit =
    let e : header_of (frame p ++ rest) ≡ length p = header_of-frame p rest in
    let s = read_step f size (frame p ++ rest) in
    rw (
      s (rw e fit.0) (rw e (fit.1)) (omega (arith, e, length-frame p rest)),
      e,
      drop-frame p rest,
      take-frame p rest,
    )

-- Whole frames are taken one by one, and the rest is left.
pub read_frames :
    (f size : ℕ) (ps : List Pdu) (r : List ℕ)
    → length (frames ps ++ r) < f
    → All (Fits size) ps
    → IsPartial size r
    → with_header (read_loop f size) size (frames ps ++ r) ≡ ok (ps, r)
unfolding frames
read_frames f size [] r h fit part = read_partial f size r h part
read_frames zero size (p ∷ ps) r h fit part = absurd (omega arith)
read_frames (suc f) size (p ∷ ps) r h fit part =
    let shorter : length (frames ps ++ r) < f =
      omega (
        arith,
        length-frame p (frames ps ++ r),
        ap length (append_assoc (frame p) (frames ps) r),
      ) in
    rw (
      append_assoc,
      read_frame f size p (frames ps ++ r) fit.0,
      read_frames f size ps r shorter fit.1 part,
    )
