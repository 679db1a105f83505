-- ===== src/Cloud/Hot.antt =====
-- `send_hot_update` and a round of `hot_update_loop` of src/cloud/cloud_server.cpp.
use plin_cloud_edge_device_l.Common.{
  ℕ, ◌+◌, ◌-◌, Bool, false, ◌&&◌, List, [], ◌∷◌, Option, none, some, ◌==◌, if◌then◌else◌, get_elem?,
  map,
}
use plin_cloud_edge_device_l.Common.Int.{ℤ, pos, pos_part, ltb_ℤ, leb_ℤ, ◌==ℤ◌}
use plin_cloud_edge_device_l.Double.{Double}
use plin_cloud_edge_device_l.Bytes.{append_u32, append_u64, append_double}
use plin_cloud_edge_device_l.Proto.{hot_update}
use plin_cloud_edge_device_l.Rpc.{is_empty}
use plin_cloud_edge_device_l.RangeMap.{locate_end, edge_of}
use plin_cloud_edge_device_l.End.{i32_bits}
use plin_cloud_edge_device_l.Cloud.{Data, Server, write, edge_conn}

abbrev pub pair_up : Option Double → Option ℕ → Option (Double × ℕ)
pair_up (some k) (some v) = some (k, v)
pair_up _ _ = none

-- The row at a position that counts from 1; `none` where the position is out of range.
unfoldable pub row_at : Data → ℤ → Option (Double × ℕ)
row_at d p =
    if leb_ℤ p (pos 0)
    then none
    else pair_up (get_elem? d.keys (pos_part p - 1)) (get_elem? d.payloads (pos_part p - 1))

unfoldable pub keep_owned : Data → ℤ → Option (Double × ℕ) → Option (Double × ℕ)
keep_owned d target_end_id none = none
keep_owned d target_end_id (some (key, payload)) =
    if locate_end d.rm key ==ℤ target_end_id then some (key, payload) else none

-- The row that the loop emits for a position: in range, and its key owned by the target.
unfoldable pub emitted_row : Data → ℤ → ℤ → Option (Double × ℕ)
emitted_row d target_end_id p = keep_owned d target_end_id (row_at d p)

-- `append_double(f.body, key); append_u64(f.body, payload)`.
unfoldable pub append_row : List ℕ → Double → ℕ → List ℕ
append_row body key payload = append_u64 (append_double body key) payload

-- The loop of `send_hot_update`: `emitted` pairs are in the body already.
unfoldable pub emit_loop : Data → ℤ → ℤ → List ℤ → ℕ → List ℕ → ℕ × List ℕ
emit_loop d target_end_id topn [] emitted body = (emitted, body)
emit_loop d target_end_id topn (p ∷ ps) emitted body = elim (emitted_row d target_end_id p) [
  | none ↦ emit_loop d target_end_id topn ps emitted body
  | some (key, payload) ↦
      let body' = append_row body key payload in
      let rest = emit_loop d target_end_id topn ps (emitted + 1) body' in
      if leb_ℤ topn (pos (emitted + 1)) then (emitted + 1, body') else rest
]

-- What `args_` and `hot_positions_` hold: the positions for each End, indexed by its id.
pub record Hot : Type 0 where
  pub hot_topn : ℤ
  pub hot_positions : List (List ℤ)

unfoldable pub positions_of : Hot → ℤ → Option (List ℤ)
positions_of h target_end_id =
    if ltb_ℤ target_end_id (pos 1) then none else get_elem? h.hot_positions (pos_part target_end_id)

unfoldable pub send_positions : Data → ℤ → ℤ → ℕ → List ℤ → Server → Bool × Server
send_positions d target_end_id topn fd ps s =
    let (emitted, body) =
      emit_loop d target_end_id topn ps 0 (append_u32 [] (i32_bits target_end_id)) in
    if emitted == 0 then (false, s) else write fd (record { kind = hot_update; body = body }) s

unfoldable pub send_hot_update : Data → Hot → ℤ → Server → Bool × Server
send_hot_update d h target_end_id s = elim (edge_conn (edge_of d.rm target_end_id) s.edges) [
  | none ↦ (false, s)
  | some fd ↦ elim (positions_of h target_end_id) [
    | none ↦ (false, s)
    | some ps ↦ send_positions d target_end_id h.hot_topn fd ps s
  ]
]

-- The loop over the indices that the prediction gives; `idx + 1` is the id of the End.
unfoldable pub update_ends : Data → Hot → List ℤ → Server → Server
update_ends d h [] s = s
update_ends d h (end_id ∷ ends) s =
    update_ends d h ends (
      if leb_ℤ (pos 1) end_id && leb_ℤ end_id (pos 10) then (send_hot_update d h end_id s).1 else s)

-- One round of `hot_update_loop`: `top` is the result of the predictor, and the ends 1, 2 and 6 are
-- taken where it is empty.
unfoldable pub hot_update_round : Data → Hot → List ℕ → Server → Server
hot_update_round d h top s =
    let top' = (if is_empty top then 0 ∷ (1 ∷ (5 ∷ [])) else top) in
    update_ends d h (map (λ idx. pos (idx + 1)) top') s
