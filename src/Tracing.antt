-- ===== src/Tracing.antt =====
-- Component tracing of mcf_py/mcf_core: the trace messages and their generator.
pub mod Messages
pub mod Generator
