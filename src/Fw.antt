-- ===== src/Fw.antt =====
-- fw/: the forwarding plane.
pub mod FaceTable
pub mod Uri
pub mod State
pub mod Outgoing
pub mod Interfaces
pub mod Incoming
pub mod Run
