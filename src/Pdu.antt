-- ===== src/Pdu.antt =====
-- common/pdu.h and common/pdu.c: the frames that carry messages over a byte stream.
-- A `pdu_t` is its first `length` bytes, and a receive or send buffer is the bytes below its
-- pointer: the code reads no others. Bytes are numbers below 256.
pub mod Framing
pub mod Reading
pub mod Fragments
pub mod Streams
pub mod Collecting
pub mod Writing
use muxer.Base.{
  ℕ, zero, suc, ◌+◌, ◌-◌, ◌*◌, ◌/◌, ◌%◌, Bool, List, [], ◌∷◌, ◌&&◌, true, false, ltb, leb,
  if◌then◌else◌, length, take, drop, Outcome, ok, out_of_fuel, ◌>>=◌, ◌>>◌, check,
}

abbrev pub buffer_ksize : ℕ
buffer_ksize = 1024

abbrev pub pdu_header_length : ℕ
pdu_header_length = 2

abbrev pub Pdu : Type 0
Pdu = List ℕ

-- The two bytes of the header in network order, as `ntohs` reads them.
unfoldable pub header_of : List ℕ → ℕ
header_of (hi ∷ lo ∷ _) = hi * 256 + lo
header_of _ = 0

-- Is there a header in the buffer? It is read and checked, and the work goes on with it.
unfoldable pub with_header :
    (ℕ → List ℕ → Outcome (List Pdu × List ℕ)) → ℕ → List ℕ → Outcome (List Pdu × List ℕ)
with_header continue recvbuflen recvbuf =
    if ltb (length recvbuf) pdu_header_length then ok ([], recvbuf) else (do
      check (leb (header_of recvbuf) (recvbuflen - pdu_header_length))
      continue (header_of recvbuf) recvbuf)

-- The loop's test: the buffer holds the whole payload that the header announces.
unfoldable pub holds_pdu : ℕ → List ℕ → Bool
holds_pdu us_hlen recvbuf =
    leb pdu_header_length (length recvbuf)
    && (ltb 0 us_hlen && leb us_hlen (length recvbuf - pdu_header_length))

-- The loop, with the length that the last header announced.
unfoldable pub read_loop : ℕ → ℕ → ℕ → List ℕ → Outcome (List Pdu × List ℕ)
unfolding holds_pdu with_header
read_loop zero recvbuflen us_hlen recvbuf = out_of_fuel
read_loop (suc fuel) recvbuflen us_hlen recvbuf = elim (holds_pdu us_hlen recvbuf) [
  | true ↦ do
    let recv_pdu = take us_hlen (drop pdu_header_length recvbuf)
    let moved = drop (us_hlen + pdu_header_length) recvbuf
    (pdus, left) ← with_header (read_loop fuel recvbuflen) recvbuflen moved
    ok (recv_pdu ∷ pdus, left)
  | false ↦ ok ([], recvbuf)
]

-- The PDUs found, in order, and the bytes that stay in the buffer.
unfoldable pub read_pdus_from_recv_buffer : ℕ → List ℕ → Outcome (List Pdu × List ℕ)
unfolding with_header read_loop
read_pdus_from_recv_buffer recvbuflen recvbuf = do
  check (leb (length recvbuf) recvbuflen)
  with_header (read_loop (suc (length recvbuf)) recvbuflen) recvbuflen recvbuf

-- The send buffer afterwards; what it held before is overwritten.
unfoldable pub write_pdu_to_send_buffer : Pdu → ℕ → Outcome (List ℕ)
write_pdu_to_send_buffer pdu sendbuflen = do
  check (leb (pdu_header_length + length pdu) sendbuflen)
  check (leb pdu_header_length (length pdu))
  let h_len = length pdu % 65536
  ok ((h_len / 256) ∷ (h_len % 256) ∷ pdu)
