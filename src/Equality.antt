-- ===== src/Equality.antt =====
-- `fpsi/pis_new`: the two-party test for equality of secret-shared bit strings, with its
-- multiplication triples, and the protocols built on it.
pub mod Triples
pub mod Round
pub mod Run
pub mod Peqt
pub mod Pis
