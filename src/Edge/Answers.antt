-- ===== src/Edge/Answers.antt =====
-- A request of an End and the answer of its Edge, from one side to the other: `edge_fetch` and
-- `read_fetch_response` of src/end/end_node.cpp, `handle_end` of src/edge/edge_server.cpp.
use plin_cloud_edge_device_l.Common.{
  ℕ, ◌-◌, ◌^◌, Bool, true, Option, some, List, [], ◌∷◌, ◌++◌, ◌==◌, if◌then◌else◌,
}
use plin_cloud_edge_device_l.Common.Int.{ℤ, pos, negsuc, ◌≤ℤ◌, leb_ℤ}
use plin_cloud_edge_device_l.Double.{Double}
use plin_cloud_edge_device_l.Bytes.{le_bytes}
use plin_cloud_edge_device_l.Plin.Predict.{Arith}
use plin_cloud_edge_device_l.PlinIndex.Leaf.{OverflowTree}
use plin_cloud_edge_device_l.PlinIndex.Index
use plin_cloud_edge_device_l.PlinIndex.Index.{LearnedIndex}
use plin_cloud_edge_device_l.PlinIndex.Index.{found_or}
use plin_cloud_edge_device_l.PlinIndex.Refined.{Contents}
use plin_cloud_edge_device_l.End.{i32_bits}

-- The range of an `int32_t`.
abbrev pub IsInt32 : ℤ → Type 0
IsInt32 z = (negsuc (2 ^ 31 - 1) ≤ℤ z) × (z ≤ℤ pos (2 ^ 31 - 1))

resp_body : ℕ → ℕ → List ℕ
resp_body st payload = st ∷ (le_bytes 8 payload ++ (0 ∷ []))

request : Double → ℤ → List ℕ
request key slot = le_bytes 8 key ++ le_bytes 4 (i32_bits slot)

module _ (a : Arith) (o : OverflowTree) (idx : LearnedIndex o) where
  -- What the leaf that an End names says of a key, and the payload that it leaves: nothing without a leaf.
  abbrev pub named_leaf : Double → ℤ → Option (ℕ × ℕ)
  named_leaf key slot =
      if leb_ℤ (pos 0) slot then Index.find_through_net a o idx key 0 slot else some (0, 0)

  -- The payload of the leaf if it has the key, else what the map has.
  abbrev pub known : Contents → Double → ℕ × ℕ → Bool × ℕ
  known m key (ret, p) = if ret == 1 then (true, p) else found_or a o p (m key)
