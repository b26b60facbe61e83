-- ===== src/Tests/Ring.antt =====
-- A ring as a list of chains, of which some come later.
use ovfs.Prelude.{
  ℕ, ◌≤◌, ◌<◌, ◌≡◌, refl, arith, Bool, true, false, List, [], ◌∷◌, ◌++◌, ◌+◌, length, length-append,
  ltb,
}
use ovfs.Prelude.Outcome.{ok, err, Exec}
use ovfs.Prelude.Exec.Ends.{Ends}
use ovfs.Error.{AnyError}
use ovfs.Memory.{Memory}
use ovfs.Stream.Open.{Descriptor}
use ovfs.Filesystem.Ends.Calls.{OperatorEnds}
use ovfs.Backend.Vring.{Vring, UsedRing}
use ovfs.Backend.Ends.{RingEnds, MemoryEnds}
use ovfs.Backend.Arrivals.{Arrivals}
use ovfs.Tests.Guest.{ram}
use ovfs.Tests.Mounted.{host}
use mathlib.Core.Path.{subst}
use native.Mathlib.Nat.{le_refl}

pub record RingChain : Type 0 where
  pub head : ℕ
  pub readable : List Descriptor
  pub writable : List Descriptor

pub record RingState : Type 0 where
  pub available : List RingChain
  pub used : List (ℕ × ℕ)
  pub later : List RingChain

-- The next chain comes, if there is one; the answer is whether a chain can be taken.
abbrev come_from : List RingChain → RingState → RingState
come_from [] s = s
come_from (chain ∷ later) s = record s { available = s.available ++ (chain ∷ []); later = later }

abbrev come : RingState → RingState
come s = come_from s.later s

abbrev any_chain : List RingChain → Bool
any_chain [] = false
any_chain (chain ∷ chains) = true

abbrev put_used : Bool → ℕ → ℕ → Exec (Memory × RingState) AnyError (Unit {0})
put_used true head len s = (ok tt, (s.0, record s.1 { used = s.1.used ++ ((head, len) ∷ []) }))
put_used false head len s = (err "head out of the ring", s)

-- The heads of a ring of this size.
abbrev pub ring_size : ℕ
ring_size = 8

abbrev pub ring : Vring
ring = record {
  VringState = RingState;
  Chain = RingChain;
  head_index = λ c. c.head;
  readable = λ memory c. c.readable;
  writable = λ memory c. c.writable;
  iter = λ s. (ok s.1.available, (s.0, record s.1 { available = [] }));
  add_used = λ head len s. put_used (ltb head ring_size) head len s;
  needs_notification = λ s. (ok true, s);
  signal_used_queue = λ s. (ok tt, s);
  disable_notification = λ s. (ok tt, s);
  Backend = Unit;
  EventFd = ℕ;
  try_clone = λ fd. ok fd;
  event_in = 1;
  enable_notification = λ s. (ok (any_chain (come s.1).available), (s.0, come s.1));
}

put_used-keeps :
    (b : Bool) (head len : ℕ) (s : Memory × RingState)
    → (put_used b head len s).1.1.later ≡ s.1.later
put_used-keeps true head len s = refl
put_used-keeps false head len s = refl

pub put_used-taken :
    (b : Bool) (head len : ℕ) (s : Memory × RingState)
    → b ≡ true
    → (s' : Memory × RingState) × (put_used b head len s ≡ (ok tt, s'))
      × (s'.1.used ≡ s.1.used ++ ((head, len) ∷ []))
put_used-taken true head len s e = (_, refl, refl)
put_used-taken false head len s e = cc

pub put_used-refused :
    (b : Bool) (head len : ℕ) (s : Memory × RingState)
    → b ≡ false
    → (x : AnyError) × (s' : Memory × RingState) × (put_used b head len s ≡ (err x, s'))
      × (s'.1.used ≡ s.1.used)
put_used-refused true head len s e = cc
put_used-refused false head len s e = (_, s, refl, refl)

unfoldable pub ring-UsedRing : UsedRing ring
ring-UsedRing = record {
  used = λ s. s.used;
  takes = λ s head. ltb head ring_size;
  add_used-taken = λ head len s e. put_used-taken (ltb head ring_size) head len s e;
  add_used-refused = λ head len s e. put_used-refused (ltb head ring_size) head len s e;
  used-iter = λ s. refl;
  used-needs = λ s. refl;
  used-signal = λ s. refl;
  takes-add_used = λ head len s n. refl;
  takes-iter = λ s n. refl;
  takes-needs = λ s n. refl;
  takes-signal = λ s n. refl;
}

Ends-put_used : (b : Bool) (head len : ℕ) → Ends (put_used b head len)
Ends-put_used true head len = record { at = λ s e. cc }
Ends-put_used false head len = record { at = λ s e. cc }

pub ring-RingEnds : RingEnds ring
ring-RingEnds = record {
  iter = record { at = λ s e. cc };
  add_used = λ head len. record { at = (Ends-put_used (ltb head ring_size) head len).at };
  needs_notification = record { at = λ s e. cc };
  signal_used_queue = record { at = λ s e. cc };
  disable_notification = record { at = λ s e. cc };
  enable_notification = record { at = λ s e. cc };
}

abbrev left_of : RingState → ℕ
left_of s = length s.available + length s.later

left_of-come_from :
    (later : List RingChain) (s : RingState)
    → s.later ≡ later
    → length (come_from later s).available + length (come_from later s).later
      ≤ length s.available + length s.later
left_of-come_from [] s e = le_refl _
left_of-come_from (chain ∷ later) s e =
    let same : length s.later ≡ length (chain ∷ later) = cc in
    omega (arith, same, length-append s.available (chain ∷ []))

pub left_of-come : (s : RingState) → left_of (come s) ≤ left_of s
left_of-come s = left_of-come_from s.later s refl

pub left_of-put_used :
    (b : Bool) (head len : ℕ) (s : Memory × RingState)
    → left_of (put_used b head len s).1.1 ≤ left_of s.1
left_of-put_used true head len s = le_refl _
left_of-put_used false head len s = le_refl _

any_chain-length : (chains : List RingChain) → any_chain chains ≡ true → 0 < length chains
any_chain-length [] e = cc
any_chain-length (chain ∷ chains) e = omega arith

pub come-waiting :
    (s s' : Memory × RingState)
    → ring.enable_notification s ≡ (ok true, s')
    → 0 < length s'.1.available
come-waiting s s' e =
    let same : (s.0, come s.1) ≡ s' = cc in
    let answer : any_chain (come s.1).available ≡ true = cc in
    subst (λ r. 0 < length r.1.available) same (any_chain-length _ answer)

iter-all :
    (s s' : Memory × RingState) (chains : List RingChain)
    → ring.iter s ≡ (ok chains, s')
    → (s.1.available ≡ chains) × ((s.0, record s.1 { available = [] }) ≡ s')
iter-all s s' chains e = (cc, cc)

pub iter-waiting :
    (s s' : Memory × RingState) (chains : List RingChain)
    → ring.iter s ≡ (ok chains, s')
    → 0 < length s.1.available
    → 0 < length chains
iter-waiting s s' chains e waits = subst (λ c. 0 < length c) (iter-all s s' chains e).0 waits

pub iter-left_of :
    (s s' : Memory × RingState) (chains : List RingChain)
    → ring.iter s ≡ (ok chains, s')
    → left_of s'.1 + length chains ≤ left_of s.1
iter-left_of s s' chains e =
    let (given, after) = iter-all s s' chains e in
    subst (λ c. left_of s'.1 + length c ≤ left_of s.1) given
      (subst (λ r. left_of r.1 + length s.1.available ≤ left_of s.1) after (omega arith))

unfoldable pub ring-Arrivals : Arrivals ring
ring-Arrivals = record {
  waiting = λ s. length s.1.available;
  unserved = left_of;
  waiting-enable = λ s {s'} e. come-waiting s s' e;
  waiting-disable = λ s. le_refl _;
  some-iter = λ s {chains} {s'} e waits. iter-waiting s s' chains e waits;
  taken-iter = λ s {chains} {s'} e. iter-left_of s s' chains e;
  unserved-iter = λ s. omega arith;
  unserved-add_used = λ head len s. left_of-put_used (ltb head ring_size) head len s;
  unserved-needs = λ s. le_refl _;
  unserved-signal = λ s. le_refl _;
  unserved-disable = λ s. le_refl _;
  unserved-enable = λ s. left_of-come s.1;
}

pub host-OperatorEnds : OperatorEnds host.core
host-OperatorEnds = record {
  stat = λ path. record { at = λ s e. cc };
  delete = λ path. record { at = λ s e. cc };
  writer_with = λ path append. record { at = λ s e. cc };
  write_from = λ bytes. record { at = λ s e. cc };
  close = record { at = λ s e. cc };
  read_with = λ path offset. record { at = λ s e. cc };
  create_dir = λ path. record { at = λ s e. cc };
  list = λ path. record { at = λ s e. cc };
}

pub ram-MemoryEnds : MemoryEnds ram
ram-MemoryEnds = record { get_slice = λ region offset n e. cc }
