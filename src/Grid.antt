-- ===== src/Grid.antt =====
-- `fpsi/utils/dist_util.cpp` and `dist_util.h`: grid cells, distances, and the arithmetic helpers.
pub mod Cells
pub mod Corners
pub mod Distances
pub mod Neighbours
pub mod Powers
