-- ===== src/Link.antt =====
-- face/: the NDNLPv2 link service, with its fragmenter and its reassembler.
pub mod Packet
pub mod Fragmenter
pub mod Reassembler
pub mod Service
