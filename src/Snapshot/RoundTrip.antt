-- ===== src/Snapshot/RoundTrip.antt =====
-- The announcement of a snapshot, from an Edge to an End: `make_rdma_snapshot_info` of
-- src/edge/edge_server.cpp, RDMA_SNAPSHOT_INFO in `apply_edge_control_frame` of src/end/end_node.cpp.
use plin_cloud_edge_device_l.Common.{
  ℕ, suc, ◌+◌, ◌^◌, ◌<◌, ◌≡◌, refl, sym, ap, ◌∙◌, List, [], ◌∷◌, ◌++◌, arith, length, take, drop,
  append-nil,
}
use plin_cloud_edge_device_l.Bytes.{le_bytes, of_le_bytes, load_le}
use plin_cloud_edge_device_l.Bytes.Fields.{length-le_bytes, load_le-at}
use plin_cloud_edge_device_l.Snapshot.{SnapshotInfo, info_bytes, info_of_bytes}

pub drop-add {ℓ} :
    {A : Type ℓ} (m n : ℕ) (front b : List A)
    → length front ≡ m
    → drop (m + n) (front ++ b) ≡ drop n b
drop-add m n [] b h = let e : m + n ≡ n = omega arith in ap (λ k. drop k b) e
drop-add m n (x ∷ front) b h =
    let e : m + n ≡ suc (length front + n) = omega arith in
    ap (λ k. drop k (x ∷ (front ++ b))) e ∙ drop-add (length front) n front b refl

-- A load behind the first field is one from what follows the field.
pub load_le-skip :
    (n m v off : ℕ) (b : List ℕ) → load_le n (le_bytes m v ++ b) (m + off) ≡ load_le n b off
unfolding load_le
load_le-skip n m v off b =
    ap (λ x. of_le_bytes (take n x)) (drop-add m off (le_bytes m v) b (length-le_bytes m v))

pub load_le-here : (n v : ℕ) (b : List ℕ) → v < 256 ^ n → load_le n (le_bytes n v ++ b) 0 ≡ v
load_le-here n v b h = load_le-at n v 0 (le_bytes n v ++ b) [] b h refl refl

-- The fields of an announcement fill their widths.
pub record IsInfo (i : SnapshotInfo) : Type 0 where
  pub magic : i.magic < 2 ^ 32
  pub version : i.version < 2 ^ 32
  pub desc_addr : i.desc_addr < 2 ^ 64
  pub desc_rkey : i.desc_rkey < 2 ^ 32
  pub leaf_count : i.leaf_count < 2 ^ 32
  pub record_addr : i.record_addr < 2 ^ 64
  pub record_rkey : i.record_rkey < 2 ^ 32
  pub record_count : i.record_count < 2 ^ 64

-- Each field, behind those before it.
module _ (pad : ℕ) (i : SnapshotInfo) (w : IsInfo i) where
  magic_back : load_le 4 (info_bytes pad i) 0 ≡ i.magic
  unfolding info_bytes
  magic_back = load_le-here 4 i.magic _ (omega (arith, w.magic))

  version_back : load_le 4 (info_bytes pad i) 4 ≡ i.version
  unfolding info_bytes
  version_back =
      load_le-skip 4 4 i.magic 0 _ ∙ load_le-here 4 i.version _ (omega (arith, w.version))

  desc_addr_back : load_le 8 (info_bytes pad i) 8 ≡ i.desc_addr
  unfolding info_bytes
  desc_addr_back =
      load_le-skip 8 4 i.magic 4 _
      ∙ load_le-skip 8 4 i.version 0 _
      ∙ load_le-here 8 i.desc_addr _ (omega (arith, w.desc_addr))

  desc_rkey_back : load_le 4 (info_bytes pad i) 16 ≡ i.desc_rkey
  unfolding info_bytes
  desc_rkey_back =
      load_le-skip 4 4 i.magic 12 _
      ∙ load_le-skip 4 4 i.version 8 _
      ∙ load_le-skip 4 8 i.desc_addr 0 _
      ∙ load_le-here 4 i.desc_rkey _ (omega (arith, w.desc_rkey))

  leaf_count_back : load_le 4 (info_bytes pad i) 20 ≡ i.leaf_count
  unfolding info_bytes
  leaf_count_back =
      load_le-skip 4 4 i.magic 16 _
      ∙ load_le-skip 4 4 i.version 12 _
      ∙ load_le-skip 4 8 i.desc_addr 4 _
      ∙ load_le-skip 4 4 i.desc_rkey 0 _
      ∙ load_le-here 4 i.leaf_count _ (omega (arith, w.leaf_count))

  record_addr_back : load_le 8 (info_bytes pad i) 24 ≡ i.record_addr
  unfolding info_bytes
  record_addr_back =
      load_le-skip 8 4 i.magic 20 _
      ∙ load_le-skip 8 4 i.version 16 _
      ∙ load_le-skip 8 8 i.desc_addr 8 _
      ∙ load_le-skip 8 4 i.desc_rkey 4 _
      ∙ load_le-skip 8 4 i.leaf_count 0 _
      ∙ load_le-here 8 i.record_addr _ (omega (arith, w.record_addr))

  record_rkey_back : load_le 4 (info_bytes pad i) 32 ≡ i.record_rkey
  unfolding info_bytes
  record_rkey_back =
      load_le-skip 4 4 i.magic 28 _
      ∙ load_le-skip 4 4 i.version 24 _
      ∙ load_le-skip 4 8 i.desc_addr 16 _
      ∙ load_le-skip 4 4 i.desc_rkey 12 _
      ∙ load_le-skip 4 4 i.leaf_count 8 _
      ∙ load_le-skip 4 8 i.record_addr 0 _
      ∙ load_le-here 4 i.record_rkey _ (omega (arith, w.record_rkey))

  record_count_back : load_le 8 (info_bytes pad i) 40 ≡ i.record_count
  unfolding info_bytes
  record_count_back =
      load_le-skip 8 4 i.magic 36 _
      ∙ load_le-skip 8 4 i.version 32 _
      ∙ load_le-skip 8 8 i.desc_addr 24 _
      ∙ load_le-skip 8 4 i.desc_rkey 20 _
      ∙ load_le-skip 8 4 i.leaf_count 16 _
      ∙ load_le-skip 8 8 i.record_addr 8 _
      ∙ load_le-skip 8 4 i.record_rkey 4 _
      ∙ load_le-skip 8 4 pad 0 _
      ∙ ap (λ b. load_le 8 b 0) (sym (append-nil (le_bytes 8 i.record_count)))
      ∙ load_le-here 8 i.record_count [] (omega (arith, w.record_count))

  -- The fields that the End takes out of the bytes are those that the Edge put in, whatever the padding.
  pub info_of_bytes-info_bytes : info_of_bytes (info_bytes pad i) ≡ i
  unfolding info_of_bytes
  info_of_bytes-info_bytes =
      rw
        (
          magic_back, version_back, desc_addr_back, desc_rkey_back, leaf_count_back,
          record_addr_back, record_rkey_back, record_count_back,
        )
        refl

pub length-info_bytes : (pad : ℕ) (i : SnapshotInfo) → length (info_bytes pad i) ≡ 48
unfolding info_bytes le_bytes
length-info_bytes pad i = refl
