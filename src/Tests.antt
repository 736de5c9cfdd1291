-- ===== src/Tests.antt =====
-- The properties at concrete inputs, and runs of the definitions.
mod Queue
mod Encoder
mod Sockets
mod Clock
mod Threads
mod Checksums
mod Packets
mod Fragmentation
mod Outputs
mod Decoder
mod Pads
mod Uris
