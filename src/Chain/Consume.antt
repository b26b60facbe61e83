-- ===== src/Chain/Consume.antt =====
-- `consume` on the flat view: the closure's count of addresses is dropped from the front.
use ovfs.Prelude.{ℕ, ◌+◌, ◌≤◌, ◌<◌, ◌≡◌, ◌∙◌, refl, ap, arith, drop_at}
use ovfs.Prelude.{List, [], ◌∷◌, some, length, drop, length-drop}
use ovfs.Prelude.Outcome.{ok, Exec}
use ovfs.Error.{Error}
use ovfs.Volatile.{Volatile, IsVolatile}
use ovfs.Chain.{usize_mod, DescriptorChainConsumer, checked_add, gather, consume_from, consume}
use ovfs.Chain.Flat.{left, room, IsValid, advance_lem}

pub checked_add_fits : (a b : ℕ) → a + b < usize_mod → checked_add a b ≡ some (a + b)
unfolding checked_add
checked_add_fits a b h = ground arith

module _ (v : Volatile) where
  open v use {VolatileSlice}

  -- `c'` is `c` after `n` bytes.
  pub record IsAfter (c : DescriptorChainConsumer v) (n : ℕ) (c' : DescriptorChainConsumer v)
      : Type 0 where
    pub dropped : left v c' ≡ drop n (left v c)
    pub counted : c'.bytes_consumed ≡ c.bytes_consumed + n

  pub IsAfter-IsValid :
      {c c' : DescriptorChainConsumer v} {n : ℕ}
      → n ≤ room v c
      → IsAfter c n c'
      → IsValid v c
      → IsValid v c'
  IsAfter-IsValid {c} {c'} {n} h a w = record {
    fits = omega (arith, w.fits, a.counted, ap length a.dropped, length-drop n (left v c));
  }

  pub IsAfter-at :
      {c c' : DescriptorChainConsumer v} {n : ℕ} (m : ℕ) → n ≡ m → IsAfter c n c' → IsAfter c m c'
  IsAfter-at {c} {c'} {n} m h a = record {
    dropped = a.dropped ∙ drop_at n m (left v c) h;
    counted = omega (arith, a.counted);
  }

  pub IsAfter-zero : (c : DescriptorChainConsumer v) → IsAfter c 0 c
  IsAfter-zero c = record { dropped = refl; counted = omega arith }

  module _ {S : Type 0} (f : List VolatileSlice → Exec S Error ℕ) (c : DescriptorChainConsumer v)
      (mem mem' : S) (n : ℕ) where
    consume_from_lem :
        IsVolatile v
        → IsValid v c
        → n ≤ room v c
        → (count : ℕ) (bufs : List VolatileSlice) → f bufs mem ≡ (ok n, mem')
        → f [] mem ≡ (ok 0, mem)
        → (c' : DescriptorChainConsumer v) × (consume_from v count f c bufs mem
            ≡ (ok (n, c'), mem'))
          × IsAfter c n c'
    consume_from_lem L w h count [] e nothing =
        let n0 : n ≡ 0 = cc in (c, cc, record { dropped = rw n0 refl; counted = omega arith })
    consume_from_lem L w h count (s ∷ bufs) e nothing =
        let (rest, done, flat) = advance_lem v L n c.buffers in
        (
          record { buffers = rest; bytes_consumed = c.bytes_consumed + n },
          rw (e, checked_add_fits c.bytes_consumed n (omega (arith, w.fits)), done),
          record { dropped = flat; counted = refl },
        )

    -- A closure that answers `n` on the gathered slices is answered `n`, and the consumer has moved
    -- on by `n` bytes.
    pub consume_lem :
        IsVolatile v
        → IsValid v c
        → n ≤ room v c
        → (count : ℕ) → f (gather v count 0 c.buffers) mem ≡ (ok n, mem')
        → f [] mem ≡ (ok 0, mem)
        → (c' : DescriptorChainConsumer v) × (consume v count f c mem ≡ (ok (n, c'), mem'))
          × IsAfter c n c'
    unfolding consume
    consume_lem L w h count e nothing =
        consume_from_lem L w h count (gather v count 0 c.buffers) e nothing
