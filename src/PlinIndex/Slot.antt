-- ===== src/PlinIndex/Slot.antt =====
-- `InnerSlot` of src/core/index/utils.h: a pointer to a node with a copy of its model. `info` has 32 bits:
-- the write lock, the read lock, the type, and 29 bits of the block number.
use plin_cloud_edge_device_l.Common.{
  ℕ, ◌+◌, ◌*◌, ◌/◌, ◌%◌, ◌^◌, ◌<◌, ◌≡◌, Bool, true, false, Option, none, some, arith, ◌==◌,
  if◌then◌else◌,
}
use plin_cloud_edge_device_l.Double.{Double}

-- `ptr` is the number of a node among those of its kind.
pub record InnerSlot : Type 0 where
  pub min_key : Double
  pub ptr : ℕ
  pub slope : Double
  pub intercept : Double
  pub info : ℕ

unfoldable pub block_number : InnerSlot → ℕ
block_number s = s.info % 2 ^ 29

-- True for an inner node, false for a leaf.
unfoldable pub is_inner : InnerSlot → Bool
is_inner s = s.info / 2 ^ 29 % 2 == 1

-- The bits outside of the mask stay; an assertion keeps the number below 2 ^ 29.
unfoldable pub set_block_number : ℕ → InnerSlot → InnerSlot
set_block_number n s = record s { info = s.info / 2 ^ 29 % 8 * 2 ^ 29 + n % 2 ^ 29 }

unfoldable pub set_type : Bool → InnerSlot → InnerSlot
set_type inner s = record s {
  info = s.info / 2 ^ 30 % 4 * 2 ^ 30 + ((if inner then 2 ^ 29 else 0) + s.info % 2 ^ 29);
}

unfoldable pub init_lock : InnerSlot → InnerSlot
init_lock s = record s { info = s.info % 2 ^ 30 }

-- `none` while another thread holds the lock.
unfoldable pub get_lock : InnerSlot → Option InnerSlot
get_lock s = if s.info / 2 ^ 31 % 2 == 1 then none else some (record s { info = s.info + 2 ^ 31 })

unfoldable pub get_write_lock : InnerSlot → InnerSlot
get_write_lock s = record s { info = s.info % 2 ^ 31 + 2 ^ 31 }

unfoldable pub get_read_lock : InnerSlot → InnerSlot
get_read_lock s = record s { info = s.info / 2 ^ 31 % 2 * 2 ^ 31 + (2 ^ 30 + s.info % 2 ^ 30) }

-- True where no one has the lock.
unfoldable pub check_write_lock : InnerSlot → Bool
check_write_lock s = s.info / 2 ^ 31 % 2 == 0

unfoldable pub check_read_lock : InnerSlot → Bool
check_read_lock s = s.info / 2 ^ 30 % 2 == 0

unfoldable pub release_lock : InnerSlot → InnerSlot
release_lock s = record s { info = s.info % 2 ^ 30 }

-- What the constructors of the nodes do to the `info` of an accelerator, whatever was in it before.
unfoldable pub describe : ℕ → Bool → InnerSlot → InnerSlot
describe n inner s = init_lock (set_type inner (set_block_number n s))

-- The accelerator that a constructor leaves tells the block number and the type that were put in, for a
-- number of 29 bits, and no lock is held on it; while a split holds both locks, both tests say so, and the
-- number and the type can still be read; and the release of the locks gives the first accelerator back.
pub describe_lem :
    (n : ℕ) (inner : Bool) (s : InnerSlot)
    → n < 2 ^ 29
    → let d = describe n inner s in
      let l = get_read_lock (get_write_lock d) in
      ((block_number d ≡ n)
        × (is_inner d ≡ inner)
        × (check_write_lock d ≡ true)
        × (check_read_lock d ≡ true))
      × ((block_number l ≡ n)
          × (is_inner l ≡ inner)
          × (check_write_lock l ≡ false)
          × (check_read_lock l ≡ false))
      × (release_lock l ≡ d)
unfolding describe init_lock set_type set_block_number block_number is_inner check_write_lock
    check_read_lock get_read_lock get_write_lock release_lock
describe_lem n true s h = ground arith
describe_lem n false s h = ground arith
