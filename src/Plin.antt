-- ===== src/Plin.antt =====
-- The parameters of the inner nodes that an Edge pushes to its Ends, and the slot that an End predicts
-- from them: src/core/index/cache_model.h, src/core/index/serialize.h, src/end/parent_plin_cache.h.
pub mod Stream
pub mod RoundTrip
pub mod Predict
pub mod Bounds
pub mod Tests
use plin_cloud_edge_device_l.Common.{ℕ, List}
use plin_cloud_edge_device_l.Double.{Double}

pub record Param : Type 0 where
  pub first_key : Double
  pub slope : Double
  pub intercept : Double
  pub block_num : ℕ

-- The levels of the index, the lowest first.
abbrev pub Params : Type 0
Params = List (List Param)
