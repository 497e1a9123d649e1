-- ===== src/Morphodita.antt =====
-- Parts of src/morphodita.
pub mod Vli
