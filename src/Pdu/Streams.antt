-- ===== src/Pdu/Streams.antt =====
-- Where a framed stream can be cut: after whole frames, and in the middle of one.
use muxer.Base.{
  ℕ, ◌+◌, ◌≤◌, ◌<◌, ◌≡◌, refl, ◌⊎◌, inl, inr, arith, List, [], ◌∷◌, ◌++◌, length, length-append,
  take, drop, take-append_le, take-append-drop, drop-append_le, take-append, drop-append, All,
  append_assoc, sym, ap, ◌∙◌, dec_lt,
}
use muxer.Pdu.{Pdu, header_of}
use muxer.Pdu.Framing.{frame, frames, Fits, header_of-frame}

-- The bytes of an incomplete frame that a buffer can hold whole.
abbrev pub IsIncomplete : ℕ → List ℕ → Type 0
IsIncomplete size r = (length r < 2) ⊎ ((header_of r + 2 ≤ size) × (length r < header_of r + 2))

-- Where a stream is cut: whole frames, an incomplete one, and with the rest the other frames.
abbrev pub Cut : ℕ → List Pdu → List ℕ → List ℕ → List ℕ → Type 0
Cut size ps r front back =
    (ps1 ps2 : List Pdu) × (r1 : List ℕ) × (ps ≡ ps1 ++ ps2)
    × (front ≡ frames ps1 ++ r1)
    × (r1 ++ back ≡ frames ps2 ++ r)
    × IsIncomplete size r1
    × All (Fits size) ps1
    × All (Fits size) ps2

header_of-prefix :
    (front back : List ℕ) → 2 ≤ length front → header_of (front ++ back) ≡ header_of front
unfolding header_of
header_of-prefix [] back h = absurd (omega arith)
header_of-prefix (b ∷ []) back h = absurd (omega arith)
header_of-prefix (hi ∷ lo ∷ front) back h = refl

-- A front that is shorter than the first frame is incomplete.
front-IsIncomplete :
    (size : ℕ) (p : Pdu) (front back rest : List ℕ)
    → Fits size p
    → front ++ back ≡ frame p ++ rest
    → length front < length p + 2
    → IsIncomplete size front
front-IsIncomplete size p front back rest fit e short = elim (dec_lt (length front) 2) [
  | yes few ↦ inl few
  | no enough ↦
      let same : header_of front ≡ length p =
        sym (header_of-prefix front back (omega arith)) ∙ ap header_of e ∙ header_of-frame p rest in
      inr (omega arith, omega arith)
]

-- A front of an incomplete frame is incomplete.
rest-IsIncomplete :
    (size : ℕ) (front back r : List ℕ)
    → front ++ back ≡ r
    → IsIncomplete size r
    → IsIncomplete size front
rest-IsIncomplete size front back r e part = elim (dec_lt (length front) 2) [
  | yes few ↦ inl few
  | no enough ↦
      let same : header_of front ≡ header_of r =
        sym (header_of-prefix front back (omega arith)) ∙ ap header_of e in
      let sizes : length front + length back ≡ length r =
        sym (length-append front back) ∙ ap length e in
      elim part [
        | inl few ↦ absurd (omega arith)
        | inr (small, short) ↦ inr (omega arith, omega arith)
      ]
]

-- Two ways to cut a list: the longer front has the shorter one in front.
front-append :
    (front back first rest : List ℕ)
    → front ++ back ≡ first ++ rest
    → length first ≤ length front
    → (front ≡ first ++ drop (length first) front) × (drop (length first) front ++ back ≡ rest)
front-append front back first rest e long =
    let whole : take (length first) front ≡ first =
      sym (take-append_le (length first) front back long)
      ∙ ap (take (length first)) e
      ∙ take-append first rest in
    (
      sym (take-append-drop (length first) front) ∙ ap (λ l. l ++ drop (length first) front) whole,
      sym (drop-append_le (length first) front back long)
          ∙ ap (drop (length first)) e
          ∙ drop-append first rest,
    )

length-frame_only : (p : Pdu) → length (frame p) ≡ length p + 2
unfolding frame
length-frame_only p = omega arith

pub cut :
    (size : ℕ) (ps : List Pdu) (r front back : List ℕ)
    → All (Fits size) ps
    → IsIncomplete size r
    → front ++ back ≡ frames ps ++ r
    → Cut size ps r front back
unfolding frames
cut size [] r front back fits part e =
    ([], [], front, refl, refl, e, rest-IsIncomplete size front back r e part, tt, tt)
cut size (p ∷ ps) r front back fits part e = elim (dec_lt (length front) (length p + 2)) [
  | yes short ↦ (
    [],
    p ∷ ps,
    front,
    refl,
    refl,
    e,
    front-IsIncomplete size p front back (frames ps ++ r) fits.0
        (e ∙ append_assoc (frame p) (frames ps) r) short,
    tt,
    fits,
  )
  | no long ↦
      let n : length (frame p) ≤ length front = omega (arith, length-frame_only p) in
      let (split, others) =
        front-append front back (frame p) (frames ps ++ r)
          (e ∙ append_assoc (frame p) (frames ps) r) n in
      let (ps1, ps2, r1, a, b, c, d, f, g) =
        cut size ps r (drop (length (frame p)) front) back fits.1 part others in
      (
        p ∷ ps1,
        ps2,
        r1,
        ap (λ l. p ∷ l) a,
        split ∙ ap (λ l. frame p ++ l) b ∙ sym (append_assoc (frame p) (frames ps1) r1),
        c,
        d,
        (fits.0, f),
        g,
      )
]
