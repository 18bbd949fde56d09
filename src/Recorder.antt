-- ===== src/Recorder.antt =====
-- The value recorder of mcf_py/mcf_core/value_recorder.py, and the reader of its recordings in
-- mcf_py/mcf/record_reader.py.
pub mod Queue
pub mod Format
pub mod Monitor
pub mod Writer
