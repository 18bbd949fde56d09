-- ===== src/RemoteControl.antt =====
-- The remote control client of mcf_py/mcf/remote_control.py.
pub mod Communicator
pub mod Objects
pub mod Replay
pub mod Client
pub mod Values
