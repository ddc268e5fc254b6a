-- ===== src/State.antt =====
-- The data of the muxer: the messages of messages/messages.asn1, the entries of the queues
-- (muxer/connection.h, muxer/mapping.h, muxer/message.h) and the global variables as one record.
-- A queue is the list of what its entries refer to, from head to tail; Queue has the pointers.
use muxer.Base.{ℕ, Bool, false, List, [], ℤ}
use muxer.Pdu.{Pdu}

-- `InputType` and `OutputType`; an octet string is the list of its bytes.
pub record InputType : Type 0 where
  pub invokeid : ℤ
  pub command : List ℕ

pub record OutputType : Type 0 where
  pub invokeid : ℤ
  pub command : List ℕ
  pub result : List ℕ

-- `ip_address_t` of common/config.h.
pub record IpAddress : Type 0 where
  pub ip : List ℕ
  pub port : ℕ

-- `connection_t`: a buffer is the bytes below its `_ptr`.
pub record Connection : Type 0 where
  pub socket : ℕ
  pub ip_address : IpAddress
  pub r_buffer : List ℕ
  pub w_buffer : List ℕ

-- `socket_invokeid_mapping_t`.
pub record Mapping : Type 0 where
  pub socket : ℕ
  pub invokeid_original : ℕ
  pub invokeid_generated : ℕ

-- `in_message_t` and `out_message_t`.
pub record InMessage : Type 0 where
  pub socket : ℕ
  pub pdu : Pdu

pub record OutMessage : Type 0 where
  pub pdu : Pdu

-- The global variables, the events that wake the threads, and the sockets shut down until now.
pub record State : Type 0 where
  pub connections : List Connection
  pub socket_to_recv_unicast_msg : List Mapping
  pub socket_to_recv_multicast_msg : List Mapping
  pub r_in_messages : List InMessage
  pub w_in_messages : List InMessage
  pub r_out_messages : List OutMessage
  pub w_out_messages : List OutMessage
  pub invokeid_gen_counter : ℕ
  pub out_connection : Connection
  pub is_out_connection_ok : Bool
  pub event_process_data : Bool
  pub event_new_message : Bool
  pub event_do_cleanup : Bool
  pub shut_down : List ℕ

abbrev pub no_address : IpAddress
no_address = record { ip = []; port = 0 }

-- `INVALID_SOCKET`, the largest `SOCKET`, as the 32-bit programs that are built have it.
abbrev pub invalid_socket : ℕ
invalid_socket = 0xffff_ffff

-- The state in which the program starts.
abbrev pub initial_state : State
initial_state = record {
  connections = [];
  socket_to_recv_unicast_msg = [];
  socket_to_recv_multicast_msg = [];
  r_in_messages = [];
  w_in_messages = [];
  r_out_messages = [];
  w_out_messages = [];
  invokeid_gen_counter = 0;
  out_connection = record {
    socket = invalid_socket;
    ip_address = no_address;
    r_buffer = [];
    w_buffer = [];
  };
  is_out_connection_ok = false;
  event_process_data = false;
  event_new_message = false;
  event_do_cleanup = false;
  shut_down = [];
}
