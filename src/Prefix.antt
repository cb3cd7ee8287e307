-- ===== src/Prefix.antt =====
-- `fpsi/utils/set_dec.cpp`: intervals as sets of binary prefixes, and the prefixes of a value.
pub mod Strings
pub mod Hits
pub mod Bounds
pub mod Decompose
pub mod SetDec
pub mod Match
pub mod Shared
pub mod Ends
