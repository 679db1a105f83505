-- ===== src/RangeMap/Step.antt =====
-- One round of the loop of `RangeMap::locate_end` (src/common/range_map.cpp), on each of its branches.
use plin_cloud_edge_device_l.Common.{
  ℕ, suc, ◌+◌, ◌-◌, ◌/◌, ◌≤◌, ◌<◌, ◌≡◌, true, false, List, some, get_elem?, ==_iff, ◌==◌, le→leb,
  lt→not_leb,
}
use plin_cloud_edge_device_l.Common.Int.{negsuc}
use plin_cloud_edge_device_l.Double.{Double, double_lt}
use plin_cloud_edge_device_l.RangeMap.{EndInfo, locate_loop}

-- The loop with its test and the element at `mid` put in.
pub step_empty :
    (ends : List EndInfo) (k : Double) (fuel lo hi : ℕ)
    → hi < lo
    → locate_loop (suc fuel) ends k lo hi ≡ some (negsuc 0)
unfolding locate_loop
step_empty ends k fuel lo hi h = rw (lt→not_leb hi lo h)

module _ (ends : List EndInfo) (k : Double) (fuel lo hi : ℕ) (within : lo ≤ hi) (m : EndInfo)
    (at : get_elem? ends ((lo + hi) / 2) ≡ some m) where
  pub step_stop :
      double_lt k m.key_lo ≡ true
      → (lo + hi) / 2 ≡ 0
      → locate_loop (suc fuel) ends k lo hi ≡ some (negsuc 0)
  unfolding locate_loop
  step_stop lt z = rw (le→leb lo hi within, at, lt, (==_iff ((lo + hi) / 2) 0).1 z)

  pub step_left :
      double_lt k m.key_lo ≡ true
      → ((lo + hi) / 2 == 0) ≡ false
      → locate_loop (suc fuel) ends k lo hi ≡ locate_loop fuel ends k lo ((lo + hi) / 2 - 1)
  unfolding locate_loop
  step_left lt z = rw (le→leb lo hi within, at, lt, z)

  pub step_right :
      double_lt k m.key_lo ≡ false
      → double_lt m.key_hi k ≡ true
      → locate_loop (suc fuel) ends k lo hi ≡ locate_loop fuel ends k ((lo + hi) / 2 + 1) hi
  unfolding locate_loop
  step_right p q = rw (le→leb lo hi within, at, p, q)

  pub step_hit :
      double_lt k m.key_lo ≡ false
      → double_lt m.key_hi k ≡ false
      → locate_loop (suc fuel) ends k lo hi ≡ some m.id
  unfolding locate_loop
  step_hit p q = rw (le→leb lo hi within, at, p, q)
