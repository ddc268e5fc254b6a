-- ===== src/Pdu/Collecting.antt =====
-- A receiver that takes a framed stream from the network in pieces of any size.
use muxer.Base.{
  ℕ, zero, suc, ◌+◌, ◌-◌, ◌≤◌, ◌<◌, ◌≡◌, refl, inl, inr, arith, List, [], ◌∷◌, ◌++◌, length,
  length-append, length-drop, take, drop, take-append-drop, min, All, Outcome, ok, ◌>>=◌, Returns,
  Returns-imp, >>=-Returns, append_assoc, length-zero, append-nil, le→leb, sym, ap, ◌∙◌,
}
use muxer.Pdu.{Pdu, header_of, read_pdus_from_recv_buffer}
use muxer.Pdu.Framing.{frame, frames, Fits, IsPartial, header_of-frame, length-frame, read_frames}
use muxer.Pdu.Streams.{IsIncomplete, cut}

-- A receiver: every `recv` takes up to the given number of bytes from the network, and no more than
-- the buffer has room for, and the buffer is read. All the PDUs found, what stays in the buffer, and
-- what is still to come.
unfoldable pub collect : ℕ → List ℕ → List ℕ → List ℕ → Outcome (List Pdu × List ℕ × List ℕ)
collect size buf net [] = ok ([], buf, net)
collect size buf net (n ∷ ns) = do
  let k = min n (size - length buf)
  (ps, r) ← read_pdus_from_recv_buffer size (buf ++ take k net)
  (qs, left, rest) ← collect size r (drop k net) ns
  ok (ps ++ qs, left, rest)

-- The PDUs found are the first ones of the stream, and the others are still to come.
abbrev Collects : ℕ → List Pdu → List ℕ → List ℕ → List ℕ → List Pdu × List ℕ × List ℕ → Type 0
Collects size ps r net ns (qs, left, rest) =
    ((others : List Pdu) × (ps ≡ qs ++ others)
      × (left ++ rest ≡ frames others ++ r)
      × All (Fits size) others)
    × IsIncomplete size left
    × (All (λ n. 1 ≤ n) ns → length rest ≤ length net - length ns)

IsIncomplete-IsPartial : (size : ℕ) (r : List ℕ) → IsIncomplete size r → IsPartial size r
IsIncomplete-IsPartial size r (inl few) = inl few
IsIncomplete-IsPartial size r (inr (small, short)) = inr (small, inr short)

IsIncomplete-room : (size : ℕ) (r : List ℕ) → 2 ≤ size → IsIncomplete size r → length r < size
IsIncomplete-room size r two (inl few) = omega arith
IsIncomplete-room size r two (inr (small, short)) = omega arith

length-take_le : (n : ℕ) (xs : List ℕ) → length (take n xs) ≤ n
length-take_le zero xs = omega arith
length-take_le (suc n) [] = omega arith
length-take_le (suc n) (x ∷ xs) = omega (arith, length-take_le n xs)

collect-Collects :
    (size : ℕ) (ps : List Pdu) (r buf net ns : List ℕ)
    → 2 ≤ size
    → All (Fits size) ps
    → IsIncomplete size r
    → IsIncomplete size buf
    → buf ++ net ≡ frames ps ++ r
    → Returns (Collects size ps r net ns) (collect size buf net ns)
unfolding collect read_pdus_from_recv_buffer
collect-Collects size ps r buf net [] two fits part here e =
    ((ps, refl, e, fits), here, λ all. omega arith)
collect-Collects size ps r buf net (n ∷ ns) two fits part here e =
    let k = min n (size - length buf) in
    let room = IsIncomplete-room size buf two here in
    let shorter = length-take_le k net in
    let joined = length-append buf (take k net) in
    let small : length (buf ++ take k net) ≤ size = omega arith in
    let whole : (buf ++ take k net) ++ drop k net ≡ frames ps ++ r =
      append_assoc buf (take k net) (drop k net)
      ∙ ap (λ l. buf ++ l) (take-append-drop k net)
      ∙ e in
    let (ps1, ps2, r1, a, b, c, d, f, g) =
      cut size ps r (buf ++ take k net) (drop k net) fits part whole in
    rw
      (
        le→leb (length (buf ++ take k net)) size small,
        b,
        read_frames (suc (length (frames ps1 ++ r1))) size ps1 r1 (omega arith) f
            (IsIncomplete-IsPartial size r1 d),
      )
      (>>=-Returns (Collects size ps2 r (drop k net) ns) (Collects size ps r net (n ∷ ns))
        (collect size r1 (drop k net) ns) _
        (collect-Collects size ps2 r r1 (drop k net) ns two g part d c)
        (λ (qs, left, rest) ((others, split, sum, fits'), last, less). (
          (others, a ∙ ap (λ l. ps1 ++ l) split ∙ sym (append_assoc ps1 qs others), sum, fits'),
          last,
          λ all. let fewer = less all.1 in let size' = length-drop k net in omega arith,
        )))

-- No whole frame stands in front of an incomplete one.
none_whole :
    (size : ℕ) (ps : List Pdu) (r left : List ℕ)
    → left ≡ frames ps ++ r
    → IsIncomplete size left
    → (ps ≡ []) × (left ≡ r)
unfolding frames
none_whole size [] r left e part = (refl, e)
none_whole size (p ∷ ps) r left e part =
    let split = e ∙ append_assoc (frame p) (frames ps) r in
    let same : header_of left ≡ length p =
      ap header_of split ∙ header_of-frame p (frames ps ++ r) in
    let size' : length left ≡ 2 + length p + length (frames ps ++ r) =
      ap length split ∙ length-frame p (frames ps ++ r) in
    elim part [ inl few ↦ absurd (omega arith) | inr (small, short) ↦ absurd (omega arith) ]

-- A stream of frames that fit the buffer, and an incomplete one that would, is read completely: if
-- every `recv` may bring at least one byte, and no more than the buffer has room for, then after as
-- many calls as the stream has bytes exactly the PDUs of the frames have been found, in order, and
-- the incomplete frame is in the buffer; no assertion fails. The buffer has room for a header.
pub collect_all :
    (size : ℕ) (ps : List Pdu) (r net ns : List ℕ)
    → 2 ≤ size
    → All (Fits size) ps
    → IsIncomplete size r
    → net ≡ frames ps ++ r
    → All (λ n. 1 ≤ n) ns
    → length net ≤ length ns
    → Returns (λ (qs, left, rest). (qs ≡ ps) × (left ≡ r) × (rest ≡ [])) (collect size [] net ns)
collect_all size ps r net ns two fits part e all enough =
    Returns-imp (Collects size ps r net ns) _ (collect size [] net ns)
      (λ (qs, left, rest) ((others, split, sum, fits'), last, less).
        let done = less all in
        let none : rest ≡ [] = length-zero rest (omega arith) in
        let (over, here) =
          none_whole size others r left
            (sym (append-nil left) ∙ ap (λ l. left ++ l) (sym none) ∙ sum) last in
        (sym (append-nil qs) ∙ ap (λ l. qs ++ l) (sym over) ∙ sym split, here, none))
      (collect-Collects size ps r [] net ns two fits part (inl (omega arith)) e)
