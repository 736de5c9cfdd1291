-- ===== src/Edi.antt =====
-- The EDI output of lib/edioutput: TAG items, TAG packets, AF packets and the PFT layer.
pub mod Result
pub mod TagItems
pub mod TagPacket
pub mod Checksum
pub mod AfPacket
pub mod Pft
pub mod Transport
