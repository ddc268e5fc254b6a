-- ===== src/Dispatcher/Buffers.antt =====
-- muxer/dispatcher.c: from sockets to buffers to queues, and back.
use muxer.Base.{
  ℕ, Bool, true, false, List, [], ◌∷◌, ◌++◌, ◌==◌, ltb, leb, if◌then◌else◌, length, drop, Option,
  none, some, Outcome, ok, ◌>>=◌, ◌>>◌, check,
}
use muxer.Pdu.{Pdu, buffer_ksize, read_pdus_from_recv_buffer, write_pdu_to_send_buffer}
use muxer.State.{State, Connection, InMessage, OutMessage}
use muxer.Message.{alloc_in_message, alloc_out_message}

-- What `recv` comes back with: bytes (none: the peer has closed), or the error of the socket.
pub data Received : Type 0 where
  received : List ℕ → Received
  recv_error : ℕ → Received

-- What `send` comes back with: the number of bytes taken, or the error of the socket.
pub data Sent : Type 0 where
  sent : ℕ → Sent
  send_error : ℕ → Sent

abbrev pub wsa_would_block : ℕ
wsa_would_block = 10035

unfoldable pub read_data : Connection → Received → Outcome (Connection × Bool)
read_data conn (received []) = do check (leb (length conn.r_buffer) buffer_ksize); ok (conn, false)
read_data conn (received (b ∷ bs)) = do
  check (leb (length conn.r_buffer) buffer_ksize)
  let r_buffer = conn.r_buffer ++ b ∷ bs
  check (leb (length r_buffer) buffer_ksize)
  ok (record conn { r_buffer = r_buffer }, true)
read_data conn (recv_error err) = do
  check (leb (length conn.r_buffer) buffer_ksize)
  ok (conn, err == wsa_would_block)

-- What `send` took leaves the buffer.
unfoldable pub send_part : Connection → ℕ → Outcome (Connection × Bool)
send_part conn bytes =
    if bytes == length conn.w_buffer then ok (record conn { w_buffer = [] }, true) else (do
      check (leb bytes (length conn.w_buffer))
      ok (record conn { w_buffer = drop bytes conn.w_buffer }, true))

-- `send` is called only if there is something to send.
unfoldable pub write_data : Connection → Sent → Outcome (Connection × Bool)
unfolding send_part
write_data conn (send_error err) = do
  check (leb (length conn.w_buffer) buffer_ksize)
  ok (conn, if ltb 0 (length conn.w_buffer) then err == wsa_would_block else true)
write_data conn (sent bytes) = do
  check (leb (length conn.w_buffer) buffer_ksize)
  if ltb 0 (length conn.w_buffer) then send_part conn bytes else ok (conn, true)

-- Every PDU becomes a message of `r_out_messages`.
unfoldable pub put_r_out_messages : List Pdu → State → Outcome State
unfolding alloc_out_message
put_r_out_messages [] s = ok s
put_r_out_messages (p ∷ rest) s = do
  new_out_message ← alloc_out_message p
  put_r_out_messages rest (record s {
    r_out_messages = s.r_out_messages ++ new_out_message ∷ [];
    event_process_data = true;
  })

unfoldable pub read_data_from_out_buffer : State → Outcome State
unfolding put_r_out_messages
read_data_from_out_buffer s = do
  (pdus, left) ← read_pdus_from_recv_buffer buffer_ksize s.out_connection.r_buffer
  let conn = s.out_connection
  put_r_out_messages pdus (record s { out_connection = record conn { r_buffer = left } })

-- Every PDU becomes a message of `r_in_messages`, with the client's socket.
unfoldable pub put_r_in_messages : ℕ → List Pdu → State → Outcome State
unfolding alloc_in_message
put_r_in_messages socket [] s = ok s
put_r_in_messages socket (p ∷ rest) s = do
  new_client_message ← alloc_in_message socket p
  put_r_in_messages socket rest (record s {
    r_in_messages = s.r_in_messages ++ new_client_message ∷ [];
    event_process_data = true;
  })

-- The connection with what stays in its buffer, and the state.
unfoldable pub read_data_from_in_buffer : Connection → State → Outcome (Connection × State)
unfolding put_r_in_messages
read_data_from_in_buffer conn s = do
  (pdus, left) ← read_pdus_from_recv_buffer buffer_ksize conn.r_buffer
  s' ← put_r_in_messages conn.socket pdus s
  ok (record conn { r_buffer = left }, s')

-- The oldest message for the server goes into its send buffer.
unfoldable pub fill_out_buffer : List OutMessage → State → Outcome State
fill_out_buffer [] s = ok s
fill_out_buffer (p ∷ rest) s = do
  w_buffer ← write_pdu_to_send_buffer p.pdu buffer_ksize
  let conn = s.out_connection
  ok (record s { w_out_messages = rest; out_connection = record conn { w_buffer = w_buffer } })

unfoldable pub write_data_to_out_buffer : State → Outcome State
unfolding fill_out_buffer
write_data_to_out_buffer s = do
  check (leb (length s.out_connection.w_buffer) buffer_ksize)
  if length s.out_connection.w_buffer == 0 then fill_out_buffer s.w_out_messages s else ok s

-- The first message for a socket, and the queue without it.
unfoldable pub take_message_for : ℕ → List InMessage → Option (InMessage × List InMessage)
take_message_for socket [] = none
take_message_for socket (r ∷ rest) = elim (r.socket == socket) [
  | true ↦ some (r, rest)
  | false ↦ elim (take_message_for socket rest) [
    | none ↦ none
    | some (found, left) ↦ some (found, r ∷ left)
  ]
]

unfoldable pub fill_with :
    Connection
    → Option (InMessage × List InMessage)
    → List InMessage
    → Outcome (Connection × List InMessage)
fill_with conn none queue = ok (conn, queue)
fill_with conn (some (r, left)) queue = do
  w_buffer ← write_pdu_to_send_buffer r.pdu buffer_ksize
  ok (record conn { w_buffer = w_buffer }, left)

-- One client's send buffer takes the first message for it, if it is empty.
unfoldable pub fill_in_buffer : Connection → List InMessage → Outcome (Connection × List InMessage)
unfolding take_message_for fill_with
fill_in_buffer conn queue = do
  check (leb (length conn.w_buffer) buffer_ksize)
  let found = take_message_for conn.socket queue
  if length conn.w_buffer == 0 then fill_with conn found queue else ok (conn, queue)

unfoldable pub fill_in_buffers :
    List Connection → List InMessage → Outcome (List Connection × List InMessage)
unfolding fill_in_buffer
fill_in_buffers [] queue = ok ([], queue)
fill_in_buffers (p ∷ rest) queue = do
  (p', queue') ← fill_in_buffer p queue
  (rest', queue'') ← fill_in_buffers rest queue'
  ok (p' ∷ rest', queue'')

unfoldable pub write_data_to_in_buffer : State → Outcome State
unfolding fill_in_buffers
write_data_to_in_buffer s = do
  (connections, queue) ← fill_in_buffers s.connections s.w_in_messages
  ok (record s { connections = connections; w_in_messages = queue })

-- Does a connection with this socket exist?
unfoldable pub exists_assoc_socket : ℕ → List Connection → Outcome Bool
exists_assoc_socket socket [] = ok false
exists_assoc_socket socket (p ∷ rest) = do
  check (leb (length p.w_buffer) buffer_ksize)
  elim (socket == p.socket) [ true ↦ ok true | false ↦ exists_assoc_socket socket rest ]

unfoldable pub keep_valid_messages : List Connection → List InMessage → Outcome (List InMessage)
unfolding exists_assoc_socket
keep_valid_messages connections [] = ok []
keep_valid_messages connections (r ∷ rest) = do
  exists ← exists_assoc_socket r.socket connections
  left ← keep_valid_messages connections rest
  ok (if exists then r ∷ left else left)

unfoldable pub free_w_in_messages_mapped_to_invalid_sockets : State → Outcome State
unfolding keep_valid_messages
free_w_in_messages_mapped_to_invalid_sockets s = do
  left ← keep_valid_messages s.connections s.w_in_messages
  ok (record s { w_in_messages = left })
