-- ===== src/Utils.antt =====
-- The helpers of src/utils.
pub mod Binary
pub mod Split
pub mod ParseInt
pub mod XmlEncoded
