-- ===== src/Device.antt =====
-- examples/device/src/cxx_device.cpp, the reference device: its state, its constant tables, and
-- the functions of the device interface that it implements, grouped as in include/qdmi/device.h.
pub mod State
pub mod Tables
pub mod Query
pub mod Session
pub mod Programs
pub mod Jobs
pub mod Submit
pub mod Results
pub mod Invariant
pub mod World
pub mod Outcome
pub mod Contracts
pub mod Sample
mod Tests
