-- ===== src/Examples.antt =====
-- The theorems at concrete states: one application of each to inputs that exercise the code.
mod Samples
mod Store
mod Manager
mod Service
mod Recording
mod Tracing
mod TypeNames
mod Traces
mod Receiver
mod Link
mod RemoteControl
mod EventGraph
