-- ===== src/Tests.antt =====
-- Runs of the code on small netlists, and the theorems at inputs that meet their hypotheses.
mod Sample
mod Netlist
mod Miter
mod Answer
mod Matching
mod Search
mod Prepare
mod Verify
mod BusMatch
mod Build
mod Mapped
mod Simplify
mod Equation
mod Signature
