-- ===== src/Matching.antt =====
-- Matching of two coordinates, and of two sums, by prefixes: the parameter tables and the strings
-- of both parties.
pub mod Params
pub mod Strings
