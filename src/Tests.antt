-- ===== src/Tests.antt =====
-- Runs of the model at concrete inputs, and the theorems at inputs that meet their hypotheses.
mod Queues
mod Pdus
mod Protocols
mod Connections
mod Mappings
mod Dispatchers
mod Configs
mod Peers
mod Rounds
mod Runtime
mod Messages
mod Systems
mod Streams
mod Handshakes
mod Logs
mod Sockets
mod Startups
