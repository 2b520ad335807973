-- ===== src/Cs.antt =====
-- The Content Store (table/cs.cpp): its entries (Cs/Entry), their order (Cs/Order), the replacement
-- policies (Cs/Policy, Cs/Lru, Cs/PriorityFifo), and the store (Cs/Store).
pub mod Entry
pub mod Order
pub mod Policy
pub mod Lru
pub mod PriorityFifo
pub mod Store
