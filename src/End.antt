-- ===== src/End.antt =====
-- src/end/end_node.cpp: an End. A method runs on the state of the End and returns the new state;
-- `none` is the end of the process by an exception that nothing catches, or undefined behaviour.
pub mod Control
pub mod Fetch
pub mod Lookup
mod Tests
use plin_cloud_edge_device_l.Common.{
  ℕ, zero, suc, ◌+◌, ◌%◌, ◌^◌, ◌-◌, Bool, true, false, List, [], ◌∷◌, ◌++◌, Option, none, some,
}
use plin_cloud_edge_device_l.Common.Int.{ℤ, pos, negsuc}
use plin_cloud_edge_device_l.Double.{Double}
use plin_cloud_edge_device_l.Proto.{Frame}
use plin_cloud_edge_device_l.RangeMap.{EndInfo}
use plin_cloud_edge_device_l.Plin.Predict.{ParentPlinCache}
use plin_cloud_edge_device_l.Snapshot.Lookup.{EndRdmaSnapshot, Remote}
use plin_cloud_edge_device_l.Store.{CuckooMap, BtreeMap}

-- The transport to the Edge: the results of its next calls of `read_frame`, where `none` is a timeout or
-- an error and the end of the list a closed connection; the frames that have been written; and the
-- results of its next calls of `write_frame`.
pub record Conn : Type 0 where
  pub incoming : List (Option Frame)
  pub sent : List Frame
  pub writes : List Bool
  pub remote : Remote

pub record Stats : Type 0 where
  pub hit_local : ℕ
  pub hit_hot : ℕ
  pub hit_edge : ℕ
  pub miss_cross : ℕ

abbrev pub no_hits : Stats
no_hits = record { hit_local = 0; hit_hot = 0; hit_edge = 0; miss_cross = 0 }

-- What does not change while the node runs: `edge` is false where `edge_` is null.
pub record Node (t : BtreeMap) : Type 0 where
  pub id : ℤ
  pub rm : List EndInfo
  pub store : t.Map
  pub edge : Bool

pub record State (c : CuckooMap) : Type 0 where
  pub hot_cache : c.Map
  pub plin_cache : ParentPlinCache
  pub rdma_snapshot : EndRdmaSnapshot
  pub conn : Conn
  pub stats : Stats
  pub next_request_id : ℕ

abbrev pub M : CuckooMap → Type 0 → Type 0
M c A = State c → Option (A × State c)

infixl 5 ◌>>=◌
abbrev pub ◌>>=◌ : {c : CuckooMap} {A B : Type 0} → M c A → (A → M c B) → M c B
◌>>=◌ m f s = elim (m s) [ none ↦ none | some (a, s') ↦ f a s' ]

-- `edge.write_frame(f)`.
unfoldable pub conn_write : Conn → Frame → Bool × Conn
conn_write n f = elim n.writes [
  | [] ↦ (false, n)
  | false ∷ ws ↦ (false, record n { writes = ws })
  | true ∷ ws ↦ (true, record n { writes = ws; sent = n.sent ++ (f ∷ []) })
]

module _ (c : CuckooMap) where
  unfoldable pub write_frame : Frame → M c Bool
  write_frame f s = let (ok, n) = conn_write s.conn f in some (ok, record s { conn = n })

-- The bits of an `int32_t`.
unfoldable pub i32_bits : ℤ → ℕ
i32_bits (pos n) = n % 2 ^ 32
i32_bits (negsuc n) = 2 ^ 32 - 1 - n % 2 ^ 32
