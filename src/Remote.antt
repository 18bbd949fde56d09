-- ===== src/Remote.antt =====
-- The remote service of mcf_py/mcf_remote/remote_service.py.
pub mod Tracker
pub mod Pair
pub mod Receiver
pub mod Configuration
pub mod Service
pub mod Sending
pub mod Link
