-- ===== src/PlinIndex.antt =====
-- The learned index: src/core/index/leaf_node.h, inner_node.h and plin_index.h, and `InnerSlot` of utils.h.
-- Another thread shows in the locks that an operation meets: a wait for one does not return, `none`.
pub mod Slot
pub mod Model
pub mod Leaf
pub mod Btrees
pub mod Chain
pub mod Block
pub mod Removal
pub mod NewLeaf
pub mod MadeLeaf
pub mod Stale
pub mod Upsert
pub mod FindUpsert
pub mod Inner
pub mod Search
pub mod Placement
pub mod Constructed
pub mod Filling
pub mod NewInner
pub mod Inserted
pub mod Index
pub mod Others
pub mod Served
pub mod Ends
pub mod Returns
pub mod Ready
pub mod Refined
pub mod ReadyTests
mod Tests
mod InnerTests
mod LeafTests
use plin_cloud_edge_device_l.Common.{ℕ}
use plin_cloud_edge_device_l.Double.{Double}

-- The largest double. It marks a free slot.
abbrev pub free_flag : Double
free_flag = 0x7fef_ffff_ffff_ffff

-- `std::numeric_limits<double>::max() - 1`: the distance between doubles of that size is 2 ^ 971, so that
-- the difference is rounded to the largest double again.
abbrev pub delete_flag : Double
delete_flag = 0x7fef_ffff_ffff_ffff
