-- ===== src/Lib.antt =====
-- A model of the muxer, which connects several clients to one server: each client's request goes to
-- the server under an invoke id that the muxer generates, and the server's answer goes back to the
-- client that asked, under the id that the client chose.
--
-- Parts, and the files that model them
-- - common/pdu.c, common/pdu.h: Pdu. A message travels as a frame, two bytes of length in network
--   order and the payload. `read_pdus_from_recv_buffer` and `write_pdu_to_send_buffer` work on the
--   bytes below a buffer's pointer. Pdu/Framing has the specification of a framed stream,
--   Pdu/Reading, Pdu/Fragments, Pdu/Streams, Pdu/Collecting and Pdu/Writing what the code makes of it.
-- - common/queue.h, common/queue.c: Queue, with a heap of entries. `q_put`, `q_get` and `q_free`
--   follow the pointers. Queue/Linked says when a heap holds a list; Queue/Put, Queue/Unlink and
--   Queue/Free are about the operations on such a heap. The other parts use the lists;
--   Mapping/Stored and Message/Stored have REMOVE_MAPPINGS and FREE_Q_MESSAGES on the linked queue
--   too, and Mapping/Unlinking and Message/Emptying are about these.
-- - the global variables (muxer/dispatcher.c, muxer/protocol.c and the headers of muxer/): State,
--   one record with the clients, the mappings, the four message queues, the server's connection and
--   the events that wake the threads.
-- - muxer/message.c, muxer/mapping.c, muxer/connection.c: Message, Mapping, Connection.
-- - muxer/protocol.c: Protocol. `process_incoming_in_messages` is `take_request` and
--   `process_request`, `process_incoming_out_messages` is `take_reply`, `process_reply` and
--   `route_reply`. The proofs are in Protocol/InvokeId, Protocol/Request, Protocol/Reply and
--   Protocol/RoundTrip.
-- - messages/messages.c: Messages, the generated encoders, decoders and constraint checks over the
--   functions of the asn1scc run-time, and `messages_codec`, which fills the codec that Protocol
--   takes. Messages/Runtime has the laws of the run-time that are relied on, Messages/Encoding,
--   Messages/Decoding, Messages/RoundTrip and Messages/Forwarding what follows from them.
-- - muxer/dispatcher.c: Dispatcher/Buffers (bytes between sockets, buffers and queues),
--   Dispatcher/Sockets (the sets for `select`, the loops over the clients), Dispatcher/Threads (the
--   connection to the server, the cleanup, one round of each thread). Proofs are in
--   Dispatcher/Delivery, Dispatcher/Endings, Dispatcher/Rounds and Dispatcher/Cleanup;
--   Dispatcher/Shutdowns puts what `shutdown_connection` does on the sockets behind the loop that
--   calls it. Dispatcher/Filling has the turns of the writing thread with its wait for
--   `h_event_new_message`; Dispatcher/Transmission, Dispatcher/Streams and Dispatcher/Link are about
--   the bytes that the server and the clients are still to get.
-- - the threads of muxer/dispatcher.c together: System. An `Event` is a section of code that one
--   thread runs under its locks, `run` what it does, `Reach` the states that any sequence of events
--   leads to. `Allowed` says what the operating system and the peers keep to, `WellFormed` what
--   every reachable state is like. System/Clients and System/Loops are about the lists of clients,
--   System/Reading, Readers, Writing, Writers and Processing about the events, System/Runs about
--   all runs; System/Contracts shows that the messages of messages/messages.asn1 keep to `Allowed`.
--   System/Wakeups adds the events that the processing and the writing thread wait for, over
--   System/Watching and System/Watchers.
-- - how the threads stop for the cleanup and end (muxer/dispatcher.c): Handshake, the moves of the
--   threads between the places that the events separate. Handshake/Marks and Handshake/Phases are
--   about the states that can be reached, Handshake/Ranks and Handshake/Stopping about the wait for
--   the cleanup.
-- - common/logging.c: Logging, the size of the log file and its rotation, with Logging/Rotation.
-- - common/config.c, common/str.h, muxer/global.c: Config, the configuration file, with
--   Config/Lines and Config/Splitting.
-- - test_server/server.c, test_client/client.c: Peers has one round of each main loop, Peers/Mains
--   the whole of `main`, as a list of calls. Peers/Ledger says what the programs hold after such a
--   list; Peers/Talking, Peers/Closing, Peers/Client and Peers/Server are about what they give back,
--   Peers/Serving about the requests in a buffer, and Peers/Through takes a request from the client
--   through the muxer to the server and its answer back.
-- - common/winsock.c: Winsock, the shutdown of a socket and the messages for socket errors, with
--   Winsock/Messages.
-- - `main` of muxer/dispatcher.c and what it calls once: Startup, as a list of acts of the operating
--   system. Startup/Machine says when an act may be done and what it does, Startup/Steps and
--   Startup/Order that `main` does nothing else.
-- - Base has the shared lists, tests, results and 64-bit conversions; Tests has runs at concrete
--   inputs.
--
-- How the parts interact: the reading thread moves bytes into read buffers and PDUs into
-- `r_in_messages` and `r_out_messages`; the processing thread turns those into `w_out_messages` and
-- `w_in_messages` and keeps the mappings; the writing thread moves those into send buffers and out;
-- the cleanup thread empties everything when the server's connection has failed.
--
-- Conventions
-- - `Outcome` is the result of code that may stop: `ok`, `abort` where an `assert` fails or a dead
--   pointer is followed, `out_of_fuel` where a loop's bound is too small.
-- - What the operating system answers (`select`, `accept`, `recv`, `send`, `connect` and the like)
--   is an argument of the model; so is the codec of the protocol, a record of four functions, and below it
--   the run-time that the generated code calls, a record of six.
-- - `read_loop` has the length of the buffer and one more as fuel: every round takes at least three
--   bytes. The loops over `n` clients have `n * n + n + 1`: a round either goes on to the next
--   client or drops one and begins anew. `read_config` has the length of the file and one
--   more. The walks over a queue take their fuel as an argument; a number above its length is
--   enough.
-- - A 64-bit conversion is written out; an id is a `ℤ` in a message and a natural number below
--   2 ^ 64 in a mapping.
--
-- Not modelled: the asn1scc run-time (a copy of a library) and the `_Initialize` functions of the
-- generated code, which nothing calls; the texts of rows in the log and of what the test programs
-- print of themselves; what happens between threads inside a section (code under its locks is one
-- step, and so is the `q_free` on `w_out_messages` that follows the release of its lock) and how
-- threads wait for locks, so that neither a race nor a deadlock of locks can be seen; the failure of
-- an allocation, but in `q_alloc`; the limit on the size of an `fd_set`.
pub mod Base
pub mod Queue
pub mod Pdu
pub mod State
pub mod Message
pub mod Mapping
pub mod Connection
pub mod Protocol
pub mod Dispatcher
pub mod Config
pub mod Peers
pub mod Startup
pub mod Winsock
pub mod Messages
pub mod System
pub mod Handshake
pub mod Logging
pub mod Tests
