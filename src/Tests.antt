-- ===== src/Tests.antt =====
-- Concrete instances: the Fibonacci recursion as a problem, and each theorem at a concrete input.
pub mod Fibonacci
pub mod Recursion
pub mod Stacks
pub mod Loops
pub mod Barriers
pub mod Failures
pub mod Chunks
pub mod Vectors
pub mod Tasks
pub mod Distributed
pub mod Divisions
