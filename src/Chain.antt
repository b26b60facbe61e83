-- ===== src/Chain.antt =====
-- `DescriptorChainConsumer` of src/util.rs: the slices of a descriptor chain that are left, and
-- the number of bytes that went before. A `VecDeque` is a list with its front first.
pub mod Flat
pub mod Consume
pub mod Split
pub mod Ends
pub mod Frame
use ovfs.Prelude.{ℕ, zero, suc, ◌+◌, ◌-◌, ◌^◌, Bool, Option, none, some, List, [], ◌∷◌, ◌++◌}
use ovfs.Prelude.{ltb, leb, ◌==◌, if◌then◌else◌, take, drop}
use ovfs.Prelude.Outcome.{Outcome, ok, err, panic, hang, Exec, pure, lift, ok_or, continue, ◌>>=◌}
use ovfs.Error.{Error, Result, new_vhost_user_fs_error}
use ovfs.Volatile.{Volatile}
use mathlib.Core.Option

-- `usize` on a 64-bit host.
abbrev pub usize_mod : ℕ
usize_mod = 2 ^ 64

unfoldable pub checked_add : ℕ → ℕ → Option ℕ
checked_add a b = if ltb (a + b) usize_mod then some (a + b) else none

abbrev pub overflow : Error
overflow =
    new_vhost_user_fs_error
      "the combined length of all the buffers in DescriptorChain would overflow" none

abbrev pub out_of_bounds : Error
out_of_bounds = new_vhost_user_fs_error "DescriptorChain split is out of bounds" none

abbrev pub volatile_memory_error : Error
volatile_memory_error = new_vhost_user_fs_error "volatile memory error" none

module _ (v : Volatile) where
  open v use {VolatileSlice, len}

  pub record DescriptorChainConsumer : Type 0 where
    pub buffers : List VolatileSlice
    pub bytes_consumed : ℕ

  -- The `for` loop of `consume`: the slices before `len >= count`.
  unfoldable pub gather : ℕ → ℕ → List VolatileSlice → List VolatileSlice
  gather count total [] = []
  gather count total (s ∷ slices) =
      let remain = count - total in
      let rest = gather count (total + (if ltb remain (len s) then remain else len s)) slices in
      if leb count total then [] else s ∷ rest

  -- The `while let Some(vs) = self.buffers.pop_front()` loop of `consume`. The `unwrap` panics.
  unfoldable pub advance : ℕ → List VolatileSlice → Result (List VolatileSlice)
  advance remain [] = ok []
  advance remain (s ∷ slices) =
      let rest = advance (remain - len s) slices in
      if ltb remain (len s)
      then elim (v.offset s remain) [ none ↦ panic | some t ↦ ok (t ∷ slices) ]
      else rest

  -- The closure may change a state `S`: guest memory, or a buffer that it captures.
  module _ {S : Type 0} (count : ℕ) (f : List VolatileSlice → Exec S Error ℕ) where
    -- The rest of `consume`, once the closure can be called.
    abbrev consume_from :
        DescriptorChainConsumer → List VolatileSlice → Exec S Error (ℕ × DescriptorChainConsumer)
    consume_from c [] = pure (0, c)
    consume_from c (s ∷ slices) = do
      bytes_consumed ← f (s ∷ slices)
      total ← ok_or overflow (checked_add c.bytes_consumed bytes_consumed)
      buffers ← lift (advance bytes_consumed c.buffers)
      pure (bytes_consumed, record { buffers = buffers; bytes_consumed = total })

    unfoldable pub consume : DescriptorChainConsumer → Exec S Error (ℕ × DescriptorChainConsumer)
    consume c = consume_from c (gather count 0 c.buffers)

  -- The `position` of `split_at`, with what its closure leaves in `remain`.
  unfoldable pub position : ℕ → List VolatileSlice → Option ℕ × ℕ
  position remain [] = (none, remain)
  position remain (s ∷ slices) =
      let later = position (remain - len s) slices in
      if ltb remain (len s) then (some 0, remain) else (Option.map suc later.0, later.1)

  -- The front slice is cut in two where the split falls inside it.
  unfoldable pub cut :
      ℕ → List VolatileSlice → List VolatileSlice → Result (List VolatileSlice × List VolatileSlice)
  cut zero kept other = ok (kept, other)
  cut (suc remain) kept [] = panic
  cut (suc remain) kept (front ∷ other) = elim (v.subslice front 0 (suc remain)) [
    | none ↦ err volatile_memory_error
    | some head ↦ elim (v.offset front (suc remain)) [
      | none ↦ err volatile_memory_error
      | some tail ↦ ok (kept ++ (head ∷ []), tail ∷ other)
    ]
  ]

  unfoldable pub divide :
      Option ℕ → ℕ → List VolatileSlice → Result (List VolatileSlice × List VolatileSlice)
  divide (some at) remain buffers = cut remain (take at buffers) (drop at buffers)
  divide none zero buffers = ok (buffers, [])
  divide none (suc remain) buffers = err out_of_bounds

  -- The two parts as consumers: `self` as it is left, and the new one.
  abbrev parts :
      ℕ
      → Result (List VolatileSlice × List VolatileSlice)
      → Result (DescriptorChainConsumer × DescriptorChainConsumer)
  parts consumed (ok (kept, other)) = ok (
    record { buffers = kept; bytes_consumed = consumed },
    record { buffers = other; bytes_consumed = 0 },
  )
  parts consumed (err e) = err e
  parts consumed panic = panic
  parts consumed hang = hang

  unfoldable pub split_at :
      ℕ → DescriptorChainConsumer → Result (DescriptorChainConsumer × DescriptorChainConsumer)
  split_at offset c =
      let (at, remain) = position offset c.buffers in
      parts c.bytes_consumed (divide at remain c.buffers)
