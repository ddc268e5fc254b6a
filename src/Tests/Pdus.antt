-- ===== src/Tests/Pdus.antt =====
-- common/pdu.c on two small frames.
use muxer.Base.{◌++◌, inr, ℕ, ◌≡◌, refl, List, [], ◌∷◌, arith, ok, abort}
use muxer.Pdu.{Pdu, buffer_ksize, header_of, read_pdus_from_recv_buffer, write_pdu_to_send_buffer}
use muxer.Pdu.Reading.{Read, read_pdus_from_recv_buffer-Read}
use muxer.Pdu.Fragments.{receive, receive_fragmentation}
use muxer.Pdu.Writing.{write_all, read-write_all}

abbrev pdus : List Pdu
pdus = (1 ∷ 2 ∷ 3 ∷ []) ∷ (4 ∷ 5 ∷ []) ∷ []

abbrev stream : List ℕ
stream = 0 ∷ 3 ∷ 1 ∷ 2 ∷ 3 ∷ 0 ∷ 2 ∷ 4 ∷ 5 ∷ []

abbrev rest : List ℕ
rest = 0 ∷ 9 ∷ 7 ∷ []

abbrev pieces : List (List ℕ)
pieces = (0 ∷ []) ∷ (3 ∷ 1 ∷ []) ∷ (2 ∷ 3 ∷ 0 ∷ 2 ∷ 4 ∷ []) ∷ (5 ∷ []) ∷ []

read_two : read_pdus_from_recv_buffer buffer_ksize stream ≡ ok (pdus, [])
unfolding read_pdus_from_recv_buffer header_of
read_two = refl

-- A header that announces more than a buffer holds ends the program.
read_oversized : read_pdus_from_recv_buffer buffer_ksize (4 ∷ 0 ∷ []) ≡ abort
unfolding read_pdus_from_recv_buffer header_of
read_oversized = refl

-- A header of 0 is never passed.
read_stuck : read_pdus_from_recv_buffer buffer_ksize (0 ∷ 0 ∷ stream) ≡ ok ([], 0 ∷ 0 ∷ stream)
unfolding read_pdus_from_recv_buffer header_of
read_stuck = refl

write_short : write_pdu_to_send_buffer (1 ∷ []) buffer_ksize ≡ abort
unfolding write_pdu_to_send_buffer
write_short = refl

read_pdus_from_recv_buffer-Read_example : Read 1024 stream (read_pdus_from_recv_buffer 1024 stream)
read_pdus_from_recv_buffer-Read_example =
    read_pdus_from_recv_buffer-Read 1024 stream (omega arith) (omega arith) (omega arith)

receive_fragmentation_example : (pdus ≡ pdus) × (◌≡◌ {A = List ℕ} [] [])
unfolding receive read_pdus_from_recv_buffer header_of
receive_fragmentation_example =
    receive_fragmentation 1024 pieces (stream ∷ []) pdus pdus [] [] (omega arith) (omega arith)
      (omega arith) refl refl refl

read-write_all_example : read_pdus_from_recv_buffer 1024 (stream ++ rest) ≡ ok (pdus, rest)
unfolding write_all write_pdu_to_send_buffer header_of
read-write_all_example =
    read-write_all 1024 pdus stream rest (omega arith) refl (inr (omega arith, inr (omega arith)))
      (omega arith)
