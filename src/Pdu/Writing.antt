-- ===== src/Pdu/Writing.antt =====
-- `write_pdu_to_send_buffer` of common/pdu.c, and reading what it writes.
use muxer.Base.{
  ℕ, suc, ◌+◌, ◌≤◌, ◌≡◌, List, [], ◌∷◌, ◌++◌, arith, length, All, ok, abort, ◌>>=◌, le→leb, leb,
  Outcome, >>=-eq-ok, if◌then◌else◌, ◌&&◌,
}
use muxer.Pdu.{Pdu, read_pdus_from_recv_buffer, write_pdu_to_send_buffer}
use muxer.Pdu.Framing.{frame, frames, Fits, IsPartial, read_frames}

-- With a send buffer of at most 65537 bytes, a PDU of at least two bytes that fits is written as
-- its frame, and any other fails an assertion.
pub write_lem :
    (p : Pdu) (size : ℕ)
    → size ≤ 65537
    → write_pdu_to_send_buffer p size
      ≡ (if leb 2 (length p) && leb (2 + length p) size then ok (frame p) else abort)
unfolding write_pdu_to_send_buffer frame
write_lem p size h = ground arith

-- The send buffers for a list of PDUs, one behind the other.
unfoldable pub write_all : ℕ → List Pdu → Outcome (List ℕ)
write_all size [] = ok []
write_all size (p ∷ ps) = do
  sent ← write_pdu_to_send_buffer p size
  more ← write_all size ps
  ok (sent ++ more)

write_all-frames :
    (size : ℕ) (ps : List Pdu) (sent : List ℕ)
    → size ≤ 65537
    → write_all size ps ≡ ok sent
    → (sent ≡ frames ps) × All (Fits size) ps
unfolding write_all frames
write_all-frames size [] sent h e = (ground arith, tt)
write_all-frames size (p ∷ ps) sent h e =
    let (one, written, then_rest) = >>=-eq-ok (write_pdu_to_send_buffer p size) _ e in
    let (more, others, last) = >>=-eq-ok (write_all size ps) _ then_rest in
    let ih = write_all-frames size ps more h others in
    let w : (one ≡ frame p) × Fits size p = ground (arith, write_lem p size h) in
    let s : sent ≡ one ++ more = ground arith in (rw (s, w.0, ih.0), (w.1, ih.1))

-- PDUs that were written one behind the other are read back, the same and in the same order,
-- whatever incomplete frame stands behind them; that frame stays in the buffer. The buffer is at
-- most 65537 bytes long and holds all of it.
pub read-write_all :
    (size : ℕ) (ps : List Pdu) (sent r : List ℕ)
    → size ≤ 65537
    → write_all size ps ≡ ok sent
    → IsPartial size r
    → length (sent ++ r) ≤ size
    → read_pdus_from_recv_buffer size (sent ++ r) ≡ ok (ps, r)
unfolding read_pdus_from_recv_buffer
read-write_all size ps sent r h e part room =
    let (is_frames, fits) = write_all-frames size ps sent h e in
    rw (le→leb (length (sent ++ r)) size room, is_frames)
      (read_frames (suc (length (frames ps ++ r))) size ps r (omega arith) fits part)
