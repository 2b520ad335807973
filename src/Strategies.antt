-- ===== src/Strategies.antt =====
-- Forwarding strategies (fw/), as the actions that their triggers take: what they share (Common), the
-- suppression of retransmissions (Retx), best-route, multicast (Simple) and
-- best-route 2 (BestRoute2).
pub mod Common
pub mod Retx
pub mod Simple
pub mod BestRoute2
