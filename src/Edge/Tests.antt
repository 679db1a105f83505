-- ===== src/Edge/Tests.antt =====
-- An index of two empty leaves that an End asks, and two Ends that connect.
use plin_cloud_edge_device_l.Common.{◌≡◌, false, [], ◌∷◌, some, arith, if◌then◌else◌}
use plin_cloud_edge_device_l.Common.Int.{pos, ◌==ℤ◌}
use plin_cloud_edge_device_l.End.Fetch.{Fetched}
use plin_cloud_edge_device_l.PlinIndex.Slot
use plin_cloud_edge_device_l.PlinIndex.Chain
use plin_cloud_edge_device_l.PlinIndex.Index
use plin_cloud_edge_device_l.Edge.{Runtime, find_end, register_end, unregister_transport}
use plin_cloud_edge_device_l.Edge.Registry.{IsMap, unless, find_end-reconnect}

abbrev asked : Fetched
asked = record { success = false; out = 0; stale = false }

abbrev runtime : Runtime
runtime = record { ends = (pos 1, 10) ∷ (pos 2, 11) ∷ []; sent = []; writes = [] }

runtime-IsMap : IsMap runtime.ends
runtime-IsMap = (((λ e. cc), tt), (tt, tt))

find_end-reconnect_example :
    find_end (pos 1) (unregister_transport 10 (register_end (pos 1) 12 runtime)).ends
    ≡ (if pos 1 ==ℤ pos 1 then some 12 else unless 10 (find_end (pos 1) runtime.ends))
find_end-reconnect_example =
    find_end-reconnect (pos 1) (pos 1) 10 12 runtime runtime-IsMap (ground arith)
