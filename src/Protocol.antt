-- ===== src/Protocol.antt =====
-- The matching protocols and the transfer of identifiers of `fpsi/fpsi_recv.cpp` and
-- `fpsi/fpsi_sender.cpp`, on top of the programmable PRF, the hash and the oblivious transfer.
pub mod Linf
pub mod Lp
pub mod Rounds
pub mod Transfer
pub mod Powers
pub mod Interval
pub mod Offline
