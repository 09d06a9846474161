-- ===== src/Video/Sps/Elements.antt =====
-- The syntax elements of an SPS are streams: what is read before the VUI, and the VUI up to the
-- signal type.
use drift.Base.{ℕ, zero, suc, ◌+◌, Bool, true, false}
use drift.Video.Sps.Syntax.{
  to_u8, next_of, last_of, skip_values, skip_scaling_list, skip_scaling_lists, skip_offsets,
  high_fields, order_count, crop_of, plus_one, fields, skip_if, skip_aspect,
  skip_aspect_and_overscan,
}
use drift.Video.Sps.Streams.{
  IsStream, IsStream-bind, IsStream-give, IsStream-if, IsStream-bit, IsStream-se, read_rules,
}

IsStream-to_u8 : (v : ℕ) → IsStream (to_u8 v)
unfolding to_u8
IsStream-to_u8 v = search read_rules

IsStream-next_of : (last next : ℕ) → IsStream (next_of last next)
IsStream-next_of last next = search read_rules

IsStream-skip_values : (size last next : ℕ) → IsStream (skip_values size last next)
unfolding skip_values
IsStream-skip_values zero last next = search read_rules
IsStream-skip_values (suc size) last next =
    IsStream-bind (IsStream-next_of last next) (λ n. IsStream-skip_values size (last_of last n) n)

IsStream-skip_scaling_list : (size : ℕ) → IsStream (skip_scaling_list size)
unfolding skip_scaling_list
IsStream-skip_scaling_list size = IsStream-skip_values size 8 8

IsStream-skip_scaling_lists : (left i : ℕ) → IsStream (skip_scaling_lists left i)
unfolding skip_scaling_lists
IsStream-skip_scaling_lists zero i = search read_rules
IsStream-skip_scaling_lists (suc left) i = IsStream-bind IsStream-bit λ b.
    IsStream-bind (IsStream-if b (IsStream-skip_scaling_list _) (IsStream-give tt))
      λ x. IsStream-skip_scaling_lists left (i + 1)

IsStream-skip_offsets : (n : ℕ) → IsStream (skip_offsets n)
unfolding skip_offsets
IsStream-skip_offsets zero = search read_rules
IsStream-skip_offsets (suc n) = IsStream-bind IsStream-se (λ v. IsStream-skip_offsets n)

IsStream-high_fields : IsStream high_fields
unfolding high_fields
IsStream-high_fields = search (read_rules, IsStream-skip_scaling_lists) depth 20

IsStream-order_count : (kind : ℕ) → IsStream (order_count kind)
unfolding order_count
IsStream-order_count zero = search read_rules
IsStream-order_count (suc zero) = search (read_rules, IsStream-skip_offsets)
IsStream-order_count (suc (suc n)) = search read_rules

IsStream-crop_of : (cropped : Bool) → IsStream (crop_of cropped)
unfolding crop_of
IsStream-crop_of false = search read_rules
IsStream-crop_of true = search read_rules

IsStream-plus_one : (v : ℕ) → IsStream (plus_one v)
unfolding plus_one
IsStream-plus_one v = search read_rules

pub IsStream-fields : IsStream fields
unfolding fields
IsStream-fields =
    search
      (
        read_rules, IsStream-to_u8, IsStream-high_fields, IsStream-order_count, IsStream-crop_of,
        IsStream-plus_one,
      )
      depth 60 fits 4000

IsStream-skip_if : (b : Bool) (n : ℕ) → IsStream (skip_if b n)
unfolding skip_if
IsStream-skip_if false n = search read_rules
IsStream-skip_if true n = search read_rules

IsStream-skip_aspect : (b : Bool) → IsStream (skip_aspect b)
unfolding skip_aspect
IsStream-skip_aspect false = search read_rules
IsStream-skip_aspect true = search (read_rules, IsStream-skip_if)

pub IsStream-skip_aspect_and_overscan : IsStream skip_aspect_and_overscan
unfolding skip_aspect_and_overscan
IsStream-skip_aspect_and_overscan = search (read_rules, IsStream-skip_aspect, IsStream-skip_if)
