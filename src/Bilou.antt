-- ===== src/Bilou.antt =====
-- The decoder of src/bilou: outcomes, probabilities and the sentence.
pub mod Entity
pub mod Probabilities
pub mod Sentence
