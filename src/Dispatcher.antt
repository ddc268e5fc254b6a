-- ===== src/Dispatcher.antt =====
-- muxer/dispatcher.c: the sockets, the buffers of the connections, and the four threads.
pub mod Buffers
pub mod Sockets
pub mod Threads
pub mod Cleanup
pub mod Delivery
pub mod Endings
pub mod Rounds
pub mod Shutdowns
pub mod Filling
pub mod Transmission
pub mod Streams
pub mod Link
