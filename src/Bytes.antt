-- ===== src/Bytes.antt =====
-- Buffers of bytes, and the numbers that memcpy puts into them and takes out: `append_u32`,
-- `append_u64`, `append_double`, `read_u32`, `read_double` of src/cloud/cloud_server.cpp,
-- src/edge/edge_server.cpp and src/end/end_node.cpp. The hosts are little-endian (x86-64).
pub mod Fields
mod Tests
use plin_cloud_edge_device_l.Common.{
  ℕ, zero, suc, ◌+◌, ◌*◌, ◌/◌, ◌%◌, ◌^◌, ◌<◌, Bool, List, [], ◌∷◌, ◌++◌, Option, none, some, ltb,
  if◌then◌else◌, length, take, drop,
}
use plin_cloud_edge_device_l.Double.{Double}

-- The lowest `n` bytes of a number, lowest first: its place in memory.
unfoldable pub le_bytes : ℕ → ℕ → List ℕ
le_bytes zero v = []
le_bytes (suc n) v = (v % 256) ∷ le_bytes n (v / 256)

unfoldable pub of_le_bytes : List ℕ → ℕ
of_le_bytes [] = 0
of_le_bytes (b ∷ bs) = b + 256 * of_le_bytes bs

unfoldable pub append_u32 : List ℕ → ℕ → List ℕ
append_u32 b v = b ++ le_bytes 4 v

unfoldable pub append_u64 : List ℕ → ℕ → List ℕ
append_u64 b v = b ++ le_bytes 8 v

unfoldable pub append_double : List ℕ → Double → List ℕ
append_double b v = b ++ le_bytes 8 v

-- `n` bytes of the buffer from `off`, as a number. The callers test the bounds.
unfoldable pub load_le : ℕ → List ℕ → ℕ → ℕ
load_le n b off = of_le_bytes (take n (drop off b))

-- `none` is the result false; the caller's variable then keeps its value.
unfoldable pub read_u32 : List ℕ → ℕ → Option ℕ
read_u32 b off = if ltb (length b) (off + 4) then none else some (load_le 4 b off)

unfoldable pub read_double : List ℕ → ℕ → Option Double
read_double b off = if ltb (length b) (off + 8) then none else some (load_le 8 b off)

-- `htonl` and `ntohl` on a little-endian host: the four bytes in the other order.
unfoldable pub swap_u32 : ℕ → ℕ
swap_u32 v = v % 256 * 2 ^ 24 + v / 256 % 256 * 2 ^ 16 + v / 2 ^ 16 % 256 * 256 + v / 2 ^ 24 % 256
