-- ===== src/Mapping.antt =====
-- `fpsi/cmp_fmap`: the fuzzy mapping, which gives near points the same identifier.
pub mod Field
pub mod Exchange
pub mod Assign
