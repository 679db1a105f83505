-- ===== src/PlinIndex/Model.antt =====
-- The models of the nodes: `model_correction` of src/core/index/utils.h, and what the constructors of
-- src/core/index/leaf_node.h and inner_node.h make of the slope and the intercept of a segment.
use plin_cloud_edge_device_l.Common.{ℕ, ◌+◌, ◌-◌, ◌*◌, ◌%◌, ◌^◌, ◌&&◌, if◌then◌else◌}
use plin_cloud_edge_device_l.Double.{Double, double_lt}
use plin_cloud_edge_device_l.Plin.Predict.{Arith}

pub record Line : Type 0 where
  pub slope : Double
  pub intercept : Double

module _ (a : Arith) where
  -- The line is stretched until it goes from 0 for the least key to the last place for the greatest, at
  -- the ends where it stays inside. `size - 1` is a subtraction of 64 bits.
  unfoldable pub model_correction : Line → ℕ → Double → Double → Line
  model_correction line size min_key max_key =
      let min_pos = a.add (a.mul min_key line.slope) line.intercept in
      let max_pos = a.add (a.add (a.mul max_key line.slope) line.intercept) (a.of_u64 1) in
      let last = a.of_u64 ((size + 2 ^ 64 - 1) % 2 ^ 64) in
      let width = a.sub max_key min_key in
      let through_min : Double → Double =
        λ slope. a.to_float (a.sub (a.of_u64 0) (a.mul slope min_key)) in
      if double_lt (a.of_u64 0) min_pos && double_lt max_pos last
      then record { slope = a.div last width; intercept = through_min (a.div last width) }
      else if double_lt (a.of_u64 0) min_pos
      then record { slope = a.div max_pos width; intercept = through_min (a.div max_pos width) }
      else if double_lt max_pos (a.of_u64 size)
      then (let slope = a.div (a.sub (a.sub (a.of_u64 size) min_pos) (a.of_u64 1)) width in
          record { slope = slope; intercept = a.to_float (a.sub last (a.mul slope max_key)) })
      else line

  -- `intercept - start_pos - keys[start_pos] * slope`.
  abbrev from_start : Line → ℕ → Double → Double
  from_start line start_pos first_key =
      a.sub (a.sub line.intercept (a.of_u64 start_pos)) (a.mul first_key line.slope)

  -- Divided by `INNER_NODE_INIT_RATIO`, 0.2. `block_number - 3` is a subtraction of 32 bits.
  unfoldable pub inner_line : Line → ℕ → ℕ → Double → Double → Line
  inner_line line block_number start_pos first_key last_key =
      let ratio : Double = 0x3fc9_9999_9999_999a in
      model_correction
        (record {
          slope = a.div line.slope ratio;
          intercept = a.to_float (a.div (from_start line start_pos first_key) ratio);
        })
        ((block_number + 2 ^ 32 - 3) % 2 ^ 32 * 8 % 2 ^ 64) first_key last_key

  -- Times 16, the slots of a block, divided by 7.5, half of those for data.
  unfoldable pub leaf_line : Line → ℕ → ℕ → Double → Double → Line
  leaf_line line block_number start_pos first_key last_key =
      let per_block = a.of_u64 16 in
      let filled : Double = 0x401e_0000_0000_0000 in
      model_correction
        (record {
          slope = a.div (a.mul line.slope per_block) filled;
          intercept =
              a.to_float (a.div (a.mul (from_start line start_pos first_key) per_block) filled);
        })
        ((block_number + 2 ^ 32 - 2) % 2 ^ 32 * 16 % 2 ^ 64) first_key last_key
