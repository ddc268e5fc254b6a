-- ===== src/Message.antt =====
-- muxer/message.c: the messages on their way, and the emptying of the four message queues.
pub mod Stored
pub mod Emptying
use muxer.Base.{ℕ, ltb, List, [], ◌∷◌, Outcome, ok, ◌>>◌, check}
use muxer.Pdu.{Pdu}
use muxer.State.{State, InMessage, OutMessage}

unfoldable pub alloc_out_message : Pdu → Outcome OutMessage
alloc_out_message pdu = ok (record { pdu = pdu })

unfoldable pub alloc_in_message : ℕ → Pdu → Outcome InMessage
alloc_in_message socket pdu = do check (ltb 0 socket); ok (record { socket = socket; pdu = pdu })

-- `while (head != NULL)` takes the head off, until nothing is left.
unfoldable pub free_messages {ℓ} : {A : Type ℓ} → List A → List A
free_messages [] = []
free_messages (tmp ∷ rest) = free_messages rest

unfoldable pub remove_all_messages : State → State
unfolding free_messages
remove_all_messages s = record s {
  r_in_messages = free_messages s.r_in_messages;
  w_in_messages = free_messages s.w_in_messages;
  r_out_messages = free_messages s.r_out_messages;
  w_out_messages = free_messages s.w_out_messages;
}
