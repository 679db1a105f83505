-- ===== src/Edge.antt =====
-- src/edge/edge_server.cpp: an Edge. Handlers run on the state that the threads of the Edge share and
-- return the new state. A thread holds a lock for each access to that state and for each frame that it
-- writes, so that a run is a sequence of the steps below.
pub mod Serve
pub mod FromCloud
pub mod Registry
pub mod Answers
pub mod Announced
pub mod Agreement
mod AgreementTests
mod Tests
use plin_cloud_edge_device_l.Common.{
  ℕ, suc, ◌+◌, ◌-◌, ◌*◌, ◌%◌, ◌^◌, Bool, true, false, List, [], ◌∷◌, ◌++◌, Option, none, some, ltb,
  ◌==◌, if◌then◌else◌, length,
}
use plin_cloud_edge_device_l.Common.Int.{ℤ, pos, negsuc, ◌==ℤ◌}
use plin_cloud_edge_device_l.Double.{Double}
use plin_cloud_edge_device_l.Bytes.{append_u64}
use plin_cloud_edge_device_l.Proto.{Frame, edge_fetch_resp, Status, status_code}

-- A frame goes to the Cloud or to the connection of an End; connections are numbered.
pub data Peer : Type 0 where
  cloud : Peer
  end_conn : ℕ → Peer

-- `EdgeRuntime::ends` without its locks, the frames that have been written, and the results of the next
-- calls of `write_frame`.
pub record Runtime : Type 0 where
  pub ends : List (ℤ × ℕ)
  pub sent : List (Peer × Frame)
  pub writes : List Bool

unfoldable pub write : Peer → Frame → Runtime → Bool × Runtime
write p f rt = elim rt.writes [
  | [] ↦ (false, rt)
  | false ∷ ws ↦ (false, record rt { writes = ws })
  | true ∷ ws ↦ (true, record rt { writes = ws; sent = rt.sent ++ ((p, f) ∷ []) })
]

unfoldable pub make_fetch_resp : Status → ℕ → Frame
make_fetch_resp status payload = record {
  kind = edge_fetch_resp;
  body = append_u64 (status_code status ∷ []) payload ++ (0 ∷ []);
}

-- `rt.ends[end_id] = conn`.
unfoldable pub assign : ℤ → ℕ → List (ℤ × ℕ) → List (ℤ × ℕ)
assign end_id conn [] = (end_id, conn) ∷ []
assign end_id conn ((i, c) ∷ ends) =
    let rest = assign end_id conn ends in
    if i ==ℤ end_id then (end_id, conn) ∷ ends else (i, c) ∷ rest

unfoldable pub register_end : ℤ → ℕ → Runtime → Runtime
register_end end_id conn rt = record rt { ends = assign end_id conn rt.ends }

-- The loop of `unregister_transport`.
unfoldable pub erase_conn : ℕ → List (ℤ × ℕ) → List (ℤ × ℕ)
erase_conn conn [] = []
erase_conn conn ((i, c) ∷ ends) =
    let rest = erase_conn conn ends in if c == conn then rest else (i, c) ∷ rest

unfoldable pub unregister_transport : ℕ → Runtime → Runtime
unregister_transport conn rt = record rt { ends = erase_conn conn rt.ends }

unfoldable pub find_end : ℤ → List (ℤ × ℕ) → Option ℕ
find_end end_id [] = none
find_end end_id ((i, c) ∷ ends) = if i ==ℤ end_id then some c else find_end end_id ends

unfoldable pub send_to_end : ℤ → Frame → Runtime → Bool × Runtime
send_to_end end_id f rt = elim (find_end end_id rt.ends) [
  | none ↦ (false, rt)
  | some conn ↦ write (end_conn conn) f rt
]

-- `static_cast<int>` of a `uint32_t`.
unfoldable pub int_of_u32 : ℕ → ℤ
int_of_u32 v = if ltb v (2 ^ 31) then pos v else negsuc (2 ^ 32 - 1 - v)
