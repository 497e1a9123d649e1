-- ===== src/Unilib.antt =====
-- Parts of src/unilib.
pub mod Utf8
pub mod Utf16
