-- ===== src/Startup/Machine.antt =====
-- What the operating system has after a sequence of acts, and when an act may be done.
use muxer.Base.{
  Bool-cases, inl, inr, arith, ℕ, ◌==◌, ◌&&◌, not, Bool, true, false, List, [], ◌∷◌, ◌++◌, ◌≡◌, has,
  keep, if◌then◌else◌, Option, none, some,
}
use muxer.Handshake.{Worker, processing, comm_write, comm_read}
use muxer.Winsock.{send_closed, socket_closed}
use muxer.Startup.{
  Section, app_state, out_connection, connections, r_in_messages, w_in_messages, r_out_messages,
  w_out_messages, unicast_msg, multicast_msg, Handle, start_threads, do_cleanup, cleanup_ended,
  process_data, new_message, thread_started, thread_stopped, thread_ended, Thread, cleaner, worker,
  Act, init_section, delete_section, create_event, set_event, wait_for, wsa_startup, wsa_cleanup,
  close_socket, open_socket, bind_socket, listen_on, create_thread, end_socket,
}

abbrev worker_no : Worker → ℕ
worker_no processing = 0
worker_no comm_write = 1
worker_no comm_read = 2

abbrev pub section_no : Section → ℕ
section_no app_state = 0
section_no out_connection = 1
section_no connections = 2
section_no r_in_messages = 3
section_no w_in_messages = 4
section_no r_out_messages = 5
section_no w_out_messages = 6
section_no unicast_msg = 7
section_no multicast_msg = 8

abbrev pub handle_no : Handle → ℕ
handle_no start_threads = 0
handle_no do_cleanup = 1
handle_no cleanup_ended = 2
handle_no process_data = 3
handle_no new_message = 4
handle_no (thread_started processing) = 5
handle_no (thread_started comm_write) = 6
handle_no (thread_started comm_read) = 7
handle_no (thread_stopped processing) = 8
handle_no (thread_stopped comm_write) = 9
handle_no (thread_stopped comm_read) = 10
handle_no (thread_ended processing) = 11
handle_no (thread_ended comm_write) = 12
handle_no (thread_ended comm_read) = 13

abbrev pub thread_no : Thread → ℕ
thread_no cleaner = 0
thread_no (worker processing) = 1
thread_no (worker comm_write) = 2
thread_no (worker comm_read) = 3

-- The sections that are initialised, the events and those that are signalled, whether winsock is
-- up, the open sockets, those that are bound, those that listen, and the threads.
pub record Machine : Type 0 where
  pub sections : List ℕ
  pub events : List ℕ
  pub signalled : List ℕ
  pub winsock : Bool
  pub sockets : List ℕ
  pub bound : List ℕ
  pub listening : List ℕ
  pub threads : List ℕ

abbrev pub idle : Machine
idle = record {
  sections = [];
  events = [];
  signalled = [];
  winsock = false;
  sockets = [];
  bound = [];
  listening = [];
  threads = [];
}

abbrev pub all_in : List ℕ → List ℕ → Bool
all_in [] ys = true
all_in (x ∷ xs) ys = has x ys && all_in xs ys

abbrev all_sections : List ℕ
all_sections = 0 ∷ 1 ∷ 2 ∷ 3 ∷ 4 ∷ 5 ∷ 6 ∷ 7 ∷ 8 ∷ []

abbrev all_events : List ℕ
all_events = 0 ∷ 1 ∷ 2 ∷ 3 ∷ 4 ∷ 5 ∷ 6 ∷ 7 ∷ 8 ∷ 9 ∷ 10 ∷ 11 ∷ 12 ∷ 13 ∷ []

abbrev pub is_empty : List ℕ → Bool
is_empty [] = true
is_empty (x ∷ xs) = false

abbrev without : ℕ → List ℕ → List ℕ
without x xs = keep (λ y. not (y == x)) xs

-- A section is initialised once and deleted once, an event is created once and used afterwards,
-- sockets are used between WSAStartup and WSACleanup and while they are open, a thread is created
-- when all that it uses is there, and the main thread waits only when there are threads to wait for.
abbrev pub may : Act → Machine → Bool
may (init_section c) m = not (has (section_no c) m.sections)
may (delete_section c) m = has (section_no c) m.sections
may (create_event h manual initial) m = not (has (handle_no h) m.events)
may (set_event h) m = has (handle_no h) m.events
may (wait_for h) m = has (handle_no h) m.events && not (is_empty m.threads)
may wsa_startup m = not m.winsock
may wsa_cleanup m = m.winsock
may (close_socket s) m = m.winsock
may (open_socket s) m = m.winsock
may (bind_socket s addr port) m = m.winsock && has s m.sockets
may (listen_on s) m = m.winsock && has s m.bound
may (create_thread t) m =
    all_in all_sections m.sections
    && (all_in all_events m.events && (m.winsock && not (is_empty m.bound)))
may (end_socket (send_closed s)) m = m.winsock && has s m.sockets
may (end_socket (socket_closed s)) m = m.winsock && has s m.sockets

abbrev close : ℕ → Machine → Machine
close s m = record m {
  sockets = without s m.sockets;
  bound = without s m.bound;
  listening = without s m.listening;
}

abbrev pub done : Act → Machine → Machine
done (init_section c) m = record m { sections = section_no c ∷ m.sections }
done (delete_section c) m = record m { sections = without (section_no c) m.sections }
done (create_event h manual initial) m = record m {
  events = handle_no h ∷ m.events;
  signalled = if initial then handle_no h ∷ m.signalled else m.signalled;
}
done (set_event h) m = record m {
  signalled = if has (handle_no h) m.signalled then m.signalled else handle_no h ∷ m.signalled;
}
done (wait_for h) m = m
done wsa_startup m = record m { winsock = true }
done wsa_cleanup m = record m { winsock = false }
done (close_socket s) m = close s m
done (open_socket s) m = record m { sockets = s ∷ m.sockets }
done (bind_socket s addr port) m = record m { bound = s ∷ m.bound }
done (listen_on s) m = record m { listening = s ∷ m.listening }
done (create_thread t) m = record m { threads = thread_no t ∷ m.threads }
done (end_socket (send_closed s)) m = m
done (end_socket (socket_closed s)) m = close s m

-- `none` if one of the acts may not be done.
abbrev pub play : List Act → Machine → Option Machine
play [] m = some m
play (a ∷ acts) m = let later = play acts (done a m) in if may a m then later else none

-- One sequence of acts after another.
pub play-append :
    (xs ys : List Act) (m m' : Machine) → play xs m ≡ some m' → play (xs ++ ys) m ≡ play ys m'
play-append [] ys m m' e = ground (arith, e)
play-append (a ∷ xs) ys m m' e = elim (Bool-cases (may a m)) [
  | inl allowed ↦ rw allowed (play-append xs ys (done a m) m' (rw allowed at e))
  | inr forbidden ↦ ground (arith, forbidden)
]
