-- ===== src/Matching.antt =====
-- src/Matching.cpp: the search for a matching.
pub mod Filter
pub mod Next
pub mod State
pub mod Buses
pub mod Search
pub mod Client
pub mod Prepare
pub mod Verify
pub mod BusMatch
