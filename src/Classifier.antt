-- ===== src/Classifier.antt =====
-- Parts of src/classifier.
pub mod Network
