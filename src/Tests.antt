-- ===== src/Tests.antt =====
-- Runs of the model on concrete inputs.
mod Intervals
mod Shares
mod Points
mod Mapping
mod Pieces
mod Blocks
mod Threads
mod Ufmap
mod Sums
mod Powers
mod Interval
mod Offline
mod Okvs
mod Lp
