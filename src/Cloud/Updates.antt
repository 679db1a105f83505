-- ===== src/Cloud/Updates.antt =====
-- Hot keys on their way: `send_hot_update` of src/cloud/cloud_server.cpp, `handle_cloud_hot_update` of
-- src/edge/edge_server.cpp and the HOT_UPDATE case of src/end/end_node.cpp.
use plin_cloud_edge_device_l.Common.{
  All, ℕ, zero, suc, get_elem?, ◌+◌, ◌-◌, ◌*◌, ◌/◌, ◌^◌, ◌≤◌, ◌<◌, ◌≡◌, refl, sym, ap, ◌∙◌, ◌⊎◌,
  inl, inr, true, false, List, [], ◌∷◌, ◌++◌, Option, none, some, arith, length, length-append,
  append_assoc, append-nil, drop, drop-length, Bool-cases, Option-cases,
}
use plin_cloud_edge_device_l.Common.Int.{ℤ, pos, negsuc, leb_ℤ, ◌≤ℤ◌, ==ℤ-cases}
use plin_cloud_edge_device_l.Double.{Double}
use plin_cloud_edge_device_l.Bytes.{le_bytes, append_u32, append_u64, append_double, load_le}
use plin_cloud_edge_device_l.Bytes.Fields.{length-le_bytes, load_le-at}
use plin_cloud_edge_device_l.RangeMap.{locate_end}
use plin_cloud_edge_device_l.Cloud.{Data}
use plin_cloud_edge_device_l.Cloud.Hot.{
  pair_up, row_at, keep_owned, emitted_row, append_row, emit_loop,
}
use plin_cloud_edge_device_l.End.Control.{update_pairs}
use plin_cloud_edge_device_l.End.{i32_bits}
use plin_cloud_edge_device_l.Edge.FromCloud.{to_end}
use mathlib.Core.Path.{ap₂}
use mathlib.Core.Option.{some-injective}

abbrev Pair : Type 0
Pair = Double × ℕ

abbrev pub pair_bytes : List Pair → List ℕ
pair_bytes [] = []
pair_bytes ((k, v) ∷ kv) = le_bytes 8 k ++ (le_bytes 8 v ++ pair_bytes kv)

length-pair_bytes : (kv : List Pair) → length (pair_bytes kv) ≡ length kv * 16
length-pair_bytes [] = refl
length-pair_bytes ((k, v) ∷ kv) = omega (
  arith,
  length-append (le_bytes 8 k) (le_bytes 8 v ++ pair_bytes kv),
  length-append (le_bytes 8 v) (pair_bytes kv),
  length-le_bytes 8 k,
  length-le_bytes 8 v,
  length-pair_bytes kv,
)

update_pairs-cons :
    (k v n i : ℕ) (b : List ℕ) (kv : List Pair)
    → load_le 8 b (i * 16) ≡ k
    → load_le 8 b (i * 16 + 8) ≡ v
    → update_pairs n (suc i) b ≡ kv
    → update_pairs (suc n) i b ≡ (k, v) ∷ kv
unfolding update_pairs
update_pairs-cons k v n i b kv p q r = cc

-- The pairs behind `front`, whose length is `i` times 16.
update_pairs-at :
    (kv : List Pair) (i : ℕ) (b front : List ℕ)
    → length front ≡ i * 16
    → b ≡ front ++ pair_bytes kv
    → All (λ p. (p.0 < 2 ^ 64) × (p.1 < 2 ^ 64)) kv
    → update_pairs (length kv) i b ≡ kv
update_pairs-at [] i b front h e w = unfold update_pairs in refl
update_pairs-at ((k, v) ∷ kv) i b front h e ((wk, wv), w) =
    let one = front ++ le_bytes 8 k in
    let two = one ++ le_bytes 8 v in
    let e1 : b ≡ one ++ (le_bytes 8 v ++ pair_bytes kv) =
      e ∙ sym (append_assoc front (le_bytes 8 k) (le_bytes 8 v ++ pair_bytes kv)) in
    let e2 : b ≡ two ++ pair_bytes kv =
      e1 ∙ sym (append_assoc one (le_bytes 8 v) (pair_bytes kv)) in
    let l1 : length one ≡ i * 16 + 8 =
      omega (arith, length-append front (le_bytes 8 k), length-le_bytes 8 k) in
    let l2 : length two ≡ suc i * 16 =
      omega (arith, l1, length-append one (le_bytes 8 v), length-le_bytes 8 v) in
    update_pairs-cons k v (length kv) i b kv
      (load_le-at 8 k (i * 16) b front (le_bytes 8 v ++ pair_bytes kv) (omega arith) h e)
      (load_le-at 8 v (i * 16 + 8) b one (pair_bytes kv) (omega arith) l1 e1)
      (update_pairs-at kv (suc i) b two l2 e2 w)

-- A key and the payload that the data file has in the same row, whose number from 1 on is one of the hot
-- positions, and the key belongs to the target.
abbrev pub IsOwned : Data → ℤ → List ℤ → Pair → Type 0
IsOwned d target ps p =
    (locate_end d.rm p.0 ≡ target)
    × ((i j : ℕ) × (get_elem? ps j ≡ some (pos (suc i)))
        × (get_elem? d.keys i ≡ some p.0)
        × (get_elem? d.payloads i ≡ some p.1))

-- What a run of the loop puts into the body, behind what is there: owned rows, and more than one only
-- up to the limit.
abbrev pub Emits : Data → ℤ → ℤ → List ℤ → ℕ → List ℕ → ℕ × List ℕ → Type 0
Emits d target topn ps emitted body r =
    (kv : List Pair) × (r ≡ (emitted + length kv, body ++ pair_bytes kv))
    × All (IsOwned d target ps) kv
    × ((length kv ≤ 1) ⊎ (pos (emitted + length kv) ≤ℤ topn))

-- The row of a position.
IsRowAt : Data → ℤ → Pair → Type 0
IsRowAt d q p =
    (i : ℕ) × (q ≡ pos (suc i))
    × (get_elem? d.keys i ≡ some p.0)
    × (get_elem? d.payloads i ≡ some p.1)

paired :
    (x : Option Double) (y : Option ℕ) (p : Pair)
    → pair_up x y ≡ some p
    → (x ≡ some p.0) × (y ≡ some p.1)
paired none y p h = cc h
paired (some k) none p h = cc h
paired (some k) (some v) p h =
    let q : (k, v) ≡ p = some-injective _ _ h in (ap (λ x. some x.0) q, ap (λ x. some x.1) q)

row_at-IsRowAt : (d : Data) (q : ℤ) (p : Pair) → row_at d q ≡ some p → IsRowAt d q p
unfolding row_at IsRowAt
row_at-IsRowAt d (negsuc n) p h =
    let t : leb_ℤ (negsuc n) (pos 0) ≡ true = ground arith in cc (rw t at h)
row_at-IsRowAt d (pos zero) p h = cc h
row_at-IsRowAt d (pos (suc i)) p h =
    let f : leb_ℤ (pos (suc i)) (pos 0) ≡ false = ground arith in
    let place : suc i - 1 ≡ i = omega arith in
    let (key, payload) =
      paired (get_elem? d.keys i) (get_elem? d.payloads i) p (rw (f, place) at h) in
    (i, refl, key, payload)

keep_owned-IsOwned :
    (d : Data) (target q : ℤ) (ps : List ℤ) (o : Option Pair) (kv : Pair)
    → row_at d q ≡ o
    → keep_owned d target o ≡ some kv
    → IsOwned d target (q ∷ ps) kv
unfolding keep_owned IsRowAt
keep_owned-IsOwned d target q ps none kv e h = cc h
keep_owned-IsOwned d target q ps (some (k, v)) kv e h =
    elim (==ℤ-cases (locate_end d.rm k) target) [
      | inr (t, _) ↦ cc (rw t at h)
      | inl (t, own) ↦
          let taken : some (k, v) ≡ some kv = rw t at h in
          let same : (k, v) ≡ kv = cc taken in
          let (i, at, key, payload) = row_at-IsRowAt d q kv (e ∙ ap some same) in
          (
            ap (λ (x : Pair). locate_end d.rm x.0) (sym same) ∙ own,
            (i, 0, ap some at, key, payload),
          )
    ]

emitted_row-IsOwned :
    (d : Data) (target q : ℤ) (ps : List ℤ) (kv : Pair)
    → emitted_row d target q ≡ some kv
    → IsOwned d target (q ∷ ps) kv
unfolding emitted_row
emitted_row-IsOwned d target q ps kv h = keep_owned-IsOwned d target q ps (row_at d q) kv refl h

IsOwned-behind :
    (d : Data) (target q : ℤ) (ps : List ℤ) (kv : List Pair)
    → All (IsOwned d target ps) kv
    → All (IsOwned d target (q ∷ ps)) kv
IsOwned-behind d target q ps [] own = tt
IsOwned-behind d target q ps (p ∷ kv) ((l, (i, j, at, k, v)), own) =
    ((l, (i, suc j, at, k, v)), IsOwned-behind d target q ps kv own)

append_row_lem :
    (body : List ℕ) (k v : ℕ) (kv : List Pair)
    → append_row body k v ++ pair_bytes kv ≡ body ++ pair_bytes ((k, v) ∷ kv)
unfolding append_row append_u64 append_double
append_row_lem body k v kv =
    append_assoc (body ++ le_bytes 8 k) (le_bytes 8 v) (pair_bytes kv)
    ∙ append_assoc body (le_bytes 8 k) (le_bytes 8 v ++ pair_bytes kv)

emit_loop-skip :
    (d : Data) (target topn p : ℤ) (ps : List ℤ) (emitted : ℕ) (body : List ℕ)
    → emitted_row d target p ≡ none
    → emit_loop d target topn (p ∷ ps) emitted body ≡ emit_loop d target topn ps emitted body
unfolding emit_loop
emit_loop-skip d target topn p ps emitted body e = rw (e, emit_loop)

emit_loop-last :
    (d : Data) (target topn p : ℤ) (ps : List ℤ) (emitted : ℕ) (body : List ℕ) (k v : ℕ)
    → emitted_row d target p ≡ some (k, v)
    → leb_ℤ topn (pos (emitted + 1)) ≡ true
    → emit_loop d target topn (p ∷ ps) emitted body ≡ (emitted + 1, append_row body k v)
unfolding emit_loop
emit_loop-last d target topn p ps emitted body k v e t = rw (e, emit_loop) (rw t)

emit_loop-more :
    (d : Data) (target topn p : ℤ) (ps : List ℤ) (emitted : ℕ) (body : List ℕ) (k v : ℕ)
    → emitted_row d target p ≡ some (k, v)
    → leb_ℤ topn (pos (emitted + 1)) ≡ false
    → emit_loop d target topn (p ∷ ps) emitted body
      ≡ emit_loop d target topn ps (emitted + 1) (append_row body k v)
unfolding emit_loop
emit_loop-more d target topn p ps emitted body k v e t = rw (e, emit_loop) (rw t)

emit_loop-Emits :
    (d : Data) (target topn : ℤ) (ps : List ℤ) (emitted : ℕ) (body : List ℕ)
    → Emits d target topn ps emitted body (emit_loop d target topn ps emitted body)
emit_loop-Emits d target topn [] emitted body = (
  [],
  unfold emit_loop in ap₂ (λ n b. (n, b)) (omega arith) (sym (append-nil body)),
  tt,
  inl (omega arith),
)
emit_loop-Emits d target topn (p ∷ ps) emitted body = elim (Option-cases (emitted_row d target p)) [
  | inl e ↦
      let (kv, r, own, few) = emit_loop-Emits d target topn ps emitted body in
      (
        kv,
        emit_loop-skip d target topn p ps emitted body e ∙ r,
        IsOwned-behind d target p ps kv own,
        few,
      )
  | inr ((k, v), e) ↦ elim (Bool-cases (leb_ℤ topn (pos (emitted + 1)))) [
    | inl t ↦ (
      (k, v) ∷ [],
      emit_loop-last d target topn p ps emitted body k v e t
          ∙ ap (λ b. (emitted + 1, b))
              (sym (append-nil (append_row body k v)) ∙ append_row_lem body k v []),
      (emitted_row-IsOwned d target p ps (k, v) e, tt),
      inl (omega arith),
    )
    | inr t ↦
        let (kv, r, own, few) =
          emit_loop-Emits d target topn ps (emitted + 1) (append_row body k v) in
        (
          (k, v) ∷ kv,
          emit_loop-more d target topn p ps emitted body k v e t
              ∙ r
              ∙ ap₂ (λ n b. (n, b)) (omega arith) (append_row_lem body k v kv),
          (emitted_row-IsOwned d target p ps (k, v) e, IsOwned-behind d target p ps kv own),
          inr (ground arith),
        )
  ]
]

-- The keys and payloads of the data file fill 64 bits.
abbrev pub IsData : Data → Type 0
IsData d =
    ((i k : ℕ) → get_elem? d.keys i ≡ some k → k < 2 ^ 64)
    × ((i v : ℕ) → get_elem? d.payloads i ≡ some v → v < 2 ^ 64)

owned-fields :
    (d : Data) (target : ℤ) (ps : List ℤ) (kv : List Pair)
    → IsData d
    → All (IsOwned d target ps) kv
    → All (λ p. (p.0 < 2 ^ 64) × (p.1 < 2 ^ 64)) kv
owned-fields d target ps [] w own = tt
owned-fields d target ps (p ∷ kv) w ((_, (i, j, at, k, v)), own) =
    ((w.0 i p.0 k, w.1 i p.1 v), owned-fields d target ps kv w own)

update_pairs-received :
    (head : List ℕ) (kv : List Pair)
    → length head ≡ 4
    → All (λ p. (p.0 < 2 ^ 64) × (p.1 < 2 ^ 64)) kv
    → update_pairs (length (drop 4 (head ++ pair_bytes kv)) / 16) 0 (drop 4 (head ++ pair_bytes kv))
      ≡ kv
update_pairs-received head kv four w =
    let cut : drop 4 (head ++ pair_bytes kv) ≡ pair_bytes kv =
      ap (λ n. drop n (head ++ pair_bytes kv)) (sym four) ∙ drop-length head (pair_bytes kv) in
    let rounds : length (pair_bytes kv) / 16 ≡ length kv = omega (arith, length-pair_bytes kv) in
    ap (λ b. update_pairs (length b / 16) 0 b) cut
    ∙ ap (λ n. update_pairs n 0 (pair_bytes kv)) rounds
    ∙ update_pairs-at kv 0 (pair_bytes kv) [] refl refl w

-- A HOT_UPDATE that the Cloud builds for an End, cut by the Edge behind the number of the End and taken
-- apart by the End, gives rows of the data file, each a key and the payload of the same row
-- at one of the hot positions, whose keys that End owns, and nothing else; there are
-- as many as were counted, and more than one only up to `hot_topn`.
pub update_pairs-emit_loop :
    (d : Data) (target topn : ℤ) (ps : List ℤ)
    → IsData d
    → let (emitted, body) = emit_loop d target topn ps 0 (append_u32 [] (i32_bits target)) in
      let received = (to_end body).body in
      let kv = update_pairs (length received / 16) 0 received in
      All (IsOwned d target ps) kv × (length kv ≡ emitted) × ((emitted ≤ 1) ⊎ (pos emitted ≤ℤ topn))
unfolding to_end append_u32
update_pairs-emit_loop d target topn ps w =
    let head = le_bytes 4 (i32_bits target) in
    let (kv, r, own, few) = emit_loop-Emits d target topn ps 0 head in
    let back =
      update_pairs-received head kv (length-le_bytes 4 (i32_bits target))
        (owned-fields d target ps kv w own) in
    rw r (rw back (own, omega arith, ground arith))
