-- ===== src/Tests/Guest.antt =====
-- Slices of guest memory as pairs of an address and a length, and two descriptor chains.
use ovfs.Prelude.{ℕ, true, ◌+◌, ◌-◌, ◌≤◌, ◌≡◌, refl, arith, none, some, [], ◌∷◌, leb, if◌then◌else◌}
use ovfs.Volatile.{Volatile, IsVolatile, cells}
use ovfs.Memory.{Memory, span}
use ovfs.Chain.{DescriptorChainConsumer}
use ovfs.Chain.Flat.{IsValid, room}
use ovfs.Stream.{Reader, Writer}
use ovfs.Stream.Open.{GuestMemory, IsGuestMemory}
use ovfs.Prelude.Outcome.{ok}

abbrev pub guest : Volatile
guest = record {
  VolatileSlice = ℕ × ℕ;
  ptr = λ s. s.0;
  len = λ s. s.1;
  offset = λ s n. if leb n s.1 then some (s.0 + n, s.1 - n) else none;
  subslice = λ s i n. if leb (i + n) s.1 then some (s.0 + i, n) else none;
}

pub leb-true : (a b : ℕ) → a ≤ b → leb a b ≡ true
leb-true a b h = ground arith

pub guest-IsVolatile : IsVolatile guest
guest-IsVolatile = record {
  offset_lem = λ s n h. ((s.0 + n, s.1 - n), rw (leb-true n s.1 h) refl, refl, refl);
  subslice_lem = λ s i n h. ((s.0 + i, n), rw (leb-true (i + n) s.1 h) refl, refl, refl);
}

-- Eight bytes in two slices.
abbrev pub chain : DescriptorChainConsumer guest
chain = record { buffers = (100, 3) ∷ (200, 5) ∷ []; bytes_consumed = 0 }

abbrev pub reader : Reader guest
reader = record { buffer = chain }

abbrev pub writer : Writer guest
writer = record { buffer = chain }

abbrev pub memory : Memory
memory = λ a. a

pub chain-IsValid : IsValid guest chain
unfolding cells span
chain-IsValid = record { fits = omega arith }

pub chain-room : room guest chain ≡ 8
unfolding cells span
chain-room = refl

-- A memory of one region, from address 0.
abbrev pub ram : GuestMemory guest
ram = record {
  Region = Unit;
  find_region = λ a. some tt;
  start_addr = λ r. 0;
  get_slice = λ r offset n. ok (offset, n);
}

pub ram-IsGuestMemory : IsGuestMemory guest ram
ram-IsGuestMemory = record { len-get_slice = λ region offset n e. cc }
