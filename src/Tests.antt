-- ===== src/Tests.antt =====
-- Runs at concrete inputs: tests of the definitions, and the theorems applied.
mod Link
mod Pit
mod Dnl
mod Fw
mod Fib
mod Transport
mod Cs
mod Strategies
mod NameTree
