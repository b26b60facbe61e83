-- ===== src/Backend/Vring.antt =====
-- What src/main.rs takes from `vhost_user_backend::VringState` and `virtio_queue`: a ring of descriptor
-- chains in guest memory, and the types of the other libraries' handles.
use ovfs.Prelude.{ℕ, ◌≡◌, Bool, true, false, List, [], ◌∷◌, ◌++◌}
use ovfs.Prelude.Outcome.{Outcome, ok, err, Exec}
use ovfs.Error.{AnyError}
use ovfs.Memory.{Memory}
use ovfs.Stream.Open.{Descriptor}

-- The calls read and write guest memory, where the rings are.
pub record Vring : Type 1 where
  pub VringState : Type 0
  pub Chain : Type 0
  pub head_index : Chain → ℕ
  -- `readable()` and `writable()`, which read the descriptors from guest memory
  pub readable : Memory → Chain → List Descriptor
  pub writable : Memory → Chain → List Descriptor
  -- `get_queue_mut().iter(mem)`, with `collect`
  pub iter : Exec (Memory × VringState) AnyError (List Chain)
  pub add_used : ℕ → ℕ → Exec (Memory × VringState) AnyError (Unit {0})
  pub needs_notification : Exec (Memory × VringState) AnyError Bool
  pub signal_used_queue : Exec (Memory × VringState) AnyError (Unit {0})
  pub disable_notification : Exec (Memory × VringState) AnyError (Unit {0})
  -- The back channel `vhost_user::Backend` and the descriptor of an event
  pub Backend : Type 0
  pub EventFd : Type 0
  pub try_clone : EventFd → Outcome AnyError EventFd
  -- `EventSet::IN`
  pub event_in : ℕ
  -- the answer is whether a chain waits
  pub enable_notification : Exec (Memory × VringState) AnyError Bool

-- What the library documents of the ring of used chains. `used` is what the ring was given, and `takes`
-- whether it takes a head: one below its size, if the ring is in mapped guest memory. Then `add_used`
-- puts the chain with the number of bytes written behind those that are there, and else it fails. No
-- call changes which heads are taken, and no other call adds to the ring.
pub record UsedRing (q : Vring) : Type 0 where
  pub used : q.VringState → List (ℕ × ℕ)
  pub takes : q.VringState → ℕ → Bool
  pub add_used-taken :
      (head len : ℕ) (s : Memory × q.VringState)
      → takes s.1 head ≡ true
      → (s' : Memory × q.VringState) × (q.add_used head len s ≡ (ok tt, s'))
        × (used s'.1 ≡ used s.1 ++ ((head, len) ∷ []))
  pub add_used-refused :
      (head len : ℕ) (s : Memory × q.VringState)
      → takes s.1 head ≡ false
      → (e : AnyError) × (s' : Memory × q.VringState) × (q.add_used head len s ≡ (err e, s'))
        × (used s'.1 ≡ used s.1)
  pub used-iter : (s : Memory × q.VringState) → used (q.iter s).1.1 ≡ used s.1
  pub used-needs : (s : Memory × q.VringState) → used (q.needs_notification s).1.1 ≡ used s.1
  pub used-signal : (s : Memory × q.VringState) → used (q.signal_used_queue s).1.1 ≡ used s.1
  pub takes-add_used :
      (head len : ℕ) (s : Memory × q.VringState) (n : ℕ)
      → takes (q.add_used head len s).1.1 n ≡ takes s.1 n
  pub takes-iter : (s : Memory × q.VringState) (n : ℕ) → takes (q.iter s).1.1 n ≡ takes s.1 n
  pub takes-needs :
      (s : Memory × q.VringState) (n : ℕ) → takes (q.needs_notification s).1.1 n ≡ takes s.1 n
  pub takes-signal :
      (s : Memory × q.VringState) (n : ℕ) → takes (q.signal_used_queue s).1.1 n ≡ takes s.1 n
