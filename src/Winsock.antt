-- ===== src/Winsock.antt =====
-- common/winsock.c: shutting a connection down, and the texts of socket errors. The numbers that
-- winsock2.h gives the errors are an argument.
pub mod Messages
use Prim.Native.Char.{code}
use Prim.Native.String.{String}
use muxer.Base.{
  ℕ, zero, suc, ◌+◌, ◌/◌, ◌%◌, ◌==◌, ltb, Bool, true, false, List, [], ◌∷◌, ◌++◌, if◌then◌else◌,
  length, map, Option, none, some, Outcome, ok, abort, out_of_fuel, ◌>>=◌, ℤ, pos, negsuc,
}
use muxer.Dispatcher.Buffers.{Received, received, recv_error}

-- What `shutdown_connection` does to the socket: SD_SEND, and `closesocket`.
pub data SocketCall : Type 0 where
  send_closed : ℕ → SocketCall
  socket_closed : ℕ → SocketCall

-- In the end `recv` finds the connection closed, or fails.
abbrev pub Closes : List Received → Type 0
Closes [] = ⊥
Closes (received [] ∷ later) = Unit
Closes (received (b ∷ bytes) ∷ later) = Closes later
Closes (recv_error err ∷ later) = Unit

-- The extra bytes on the socket are received until nothing is left or `recv` fails.
unfoldable pub receive_extra : List Received → Outcome (Unit {0})
receive_extra [] = out_of_fuel
receive_extra (received [] ∷ later) = ok tt
receive_extra (received (b ∷ bytes) ∷ later) = receive_extra later
receive_extra (recv_error err ∷ later) = ok tt

-- `shutdown_connection`, with the answers of `shutdown`, `recv` and `closesocket`; the calls that
-- succeed, and its result.
unfoldable pub shutdown_socket : ℕ → Bool → List Received → Bool → Outcome (List SocketCall × Bool)
unfolding receive_extra
shutdown_socket socket shutdown_ok extra close_ok =
    if shutdown_ok
    then (do
      _ ← receive_extra extra
      ok (
          if close_ok
          then (send_closed socket ∷ socket_closed socket ∷ [], true)
          else (send_closed socket ∷ [], false)))
    else ok ([], false)

-- The characters of a text.
abbrev pub codes : String → List ℕ
codes String.[] = []
codes (String.◌∷◌ c s) = code c ∷ codes s

-- The texts of the table `errors` behind the first, which is for 0.
abbrev pub error_texts : List String
error_texts =
    "Interrupted system call" ∷ "Bad file number" ∷ "Permission denied" ∷ "Bad address"
    ∷ "Invalid argument" ∷ "Too many open sockets" ∷ "Operation would block"
    ∷ "Operation now in progress" ∷ "Operation already in progress"
    ∷ "Socket operation on non-socket" ∷ "Destination address required" ∷ "Message too long"
    ∷ "Protocol wrong type for socket" ∷ "Bad protocol option" ∷ "Protocol not supported"
    ∷ "Socket type not supported" ∷ "Operation not supported on socket"
    ∷ "Protocol family not supported" ∷ "Address family not supported" ∷ "Address already in use"
    ∷ "Can't assign requested address" ∷ "Network is down" ∷ "Network is unreachable"
    ∷ "Net connection reset" ∷ "Software caused connection abort" ∷ "Connection reset by peer"
    ∷ "No buffer space available" ∷ "Socket is already connected" ∷ "Socket is not connected"
    ∷ "Can't send after socket shutdown" ∷ "Too many references, can't splice"
    ∷ "Connection timed out" ∷ "Connection refused" ∷ "Too many levels of symbolic links"
    ∷ "File name too long" ∷ "Host is down" ∷ "No route to host" ∷ "Directory not empty"
    ∷ "Too many processes" ∷ "Too many users" ∷ "Disc quota exceeded" ∷ "Stale NFS file handle"
    ∷ "Too many levels of remote in path" ∷ "Network system is unavailable"
    ∷ "Winsock version out of range" ∷ "WSAStartup not yet called" ∷ "Graceful shutdown in progress"
    ∷ "Host not found" ∷ "No host data of that type was found" ∷ []

abbrev pub with_ids : List ℕ → List String → List (ℕ × List ℕ)
with_ids [] texts = []
with_ids (id ∷ ids) [] = []
with_ids (id ∷ ids) (text ∷ texts) = (id, codes text) ∷ with_ids ids texts

-- The table; `ids` are the values of WSAEINTR, WSAEBADF and so on, in the table's order.
abbrev pub error_table : List ℕ → List (ℕ × List ℕ)
error_table ids = (0, codes "No error") ∷ with_ids ids error_texts

abbrev pub error_buffer_size : ℕ
error_buffer_size = 100

-- `strcpy_s` and `strcat_s` into `error_buffer`: what does not fit with its NUL ends the program.
unfoldable pub append_s : List ℕ → List ℕ → Outcome (List ℕ)
append_s buffer text =
    if ltb (length buffer + length text) error_buffer_size then ok (buffer ++ text) else abort

-- The loop over the table: the text of every entry with the id is appended.
unfoldable pub append_texts : List (ℕ × List ℕ) → ℕ → List ℕ → Outcome (List ℕ)
unfolding append_s
append_texts [] id buffer = ok buffer
append_texts ((entry, text) ∷ rest) id buffer = do
  buffer' ← if entry == id then append_s buffer text else ok buffer
  append_texts rest id buffer'

-- The digits of a number, at most as many as the fuel says.
unfoldable pub digits : ℕ → ℕ → List ℕ
digits zero n = []
digits (suc fuel) n = if ltb n 10 then (48 + n) ∷ [] else digits fuel (n / 10) ++ (48 + n % 10) ∷ []

-- " (%d)" for an id that is not negative; an `int` has at most ten digits.
unfoldable pub target_id : ℕ → List ℕ
unfolding digits
target_id id = codes " (" ++ digits 10 id ++ codes ")"

-- The part behind the prefix.
unfoldable pub describe : List ℕ → ℤ → List ℕ → Outcome (List ℕ)
unfolding append_texts target_id append_s
describe ids (pos id) buffer = do
  buffer' ← append_texts (error_table ids) id buffer
  append_s buffer' (target_id id)
describe ids (negsuc id) buffer = do
  buffer' ← append_s buffer (codes "unknown error")
  append_s buffer' (codes " (-1)")

-- The id, or what `WSAGetLastError` comes back with if it is 0.
abbrev pub chosen_error : ℤ → ℤ → ℤ
chosen_error (pos zero) last_error = last_error
chosen_error error_id last_error = error_id

-- `WSAGetLastErrorMessage`, with a prefix that is not NULL.
unfoldable pub last_error_message : List ℕ → List ℕ → ℤ → ℤ → Outcome (List ℕ)
unfolding append_s describe
last_error_message ids message_prefix error_id last_error = do
  buffer ← append_s [] message_prefix
  buffer' ← append_s buffer (codes ": ")
  describe ids (chosen_error error_id last_error) buffer'
