-- ===== src/Ner.antt =====
-- The recognizer of src/ner.
pub mod EntityMap
pub mod Spans
pub mod Recognize
pub mod Training
