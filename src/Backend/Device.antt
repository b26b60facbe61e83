-- ===== src/Backend/Device.antt =====
-- The state of src/main.rs: `VhostUserFsThread`, and what an event changes.
use ovfs.Prelude.{◌⊎◌, inl, inr, ℕ, ◌+◌, Bool, false, Option, none, some}
use ovfs.Prelude.Outcome.{Outcome, ok, err, panic, hang, Exec}
use ovfs.Error.{Error, AnyError, new_unexpected_error}
use ovfs.Memory.{Memory}
use ovfs.Stream.Open.{GuestMemory}
use ovfs.Filesystem.State.{Host, World}
use ovfs.Backend.Vring.{Vring}

abbrev pub hiprio_queue_event : ℕ
hiprio_queue_event = 0

abbrev pub req_queue_event : ℕ
req_queue_event = 1

abbrev pub queue_size : ℕ
queue_size = 1024

abbrev pub request_queues : ℕ
request_queues = 1

abbrev pub num_queues : ℕ
num_queues = request_queues + 1

-- What `VhostUserFsThread` keeps besides its file system, which stands in `World`.
pub record VhostUserFsThread (h : Host) (q : Vring) : Type 1 where
  pub mem : Option (GuestMemory h.volatile)
  pub vu_req : Option q.Backend
  pub event_idx : Bool
  pub kill_event_fd : q.EventFd

module _ {h : Host} {q : Vring} where
  -- `VhostUserFsThread::new`, from what `EventFd::new` gives.
  abbrev pub new_thread : AnyError ⊎ q.EventFd → Error ⊎ VhostUserFsThread h q
  new_thread (inl e) = inl (new_unexpected_error "failed to create kill eventfd" (some e))
  new_thread (inr event_fd) =
      inr (record { mem = none; vu_req = none; event_idx = false; kill_event_fd = event_fd })

  -- The calls of `VhostUserFsBackend` that set a field under its lock.
  unfoldable pub set_event_idx : Bool → VhostUserFsThread h q → VhostUserFsThread h q
  set_event_idx enabled thread = record thread { event_idx = enabled }

  unfoldable pub update_memory :
      GuestMemory h.volatile → VhostUserFsThread h q → VhostUserFsThread h q
  update_memory mem thread = record thread { mem = some mem }

  unfoldable pub set_backend_req_fd : q.Backend → VhostUserFsThread h q → VhostUserFsThread h q
  set_backend_req_fd vu_req thread = record thread { vu_req = some vu_req }

-- How a call of the backend ends without a value: with an error, or with `exit(code)` of the process.
pub data Stop (E : Type 0) : Type 0 where
  failed : E → Stop E
  exited : ℕ → Stop E

abbrev pub map_stop : {E F : Type 0} → (E → F) → Stop E → Stop F
map_stop f (failed e) = failed (f e)
map_stop f (exited code) = exited code

abbrev pub Stopped : Type 0
Stopped = Stop Error

-- The file system with guest memory, and the ring that is served.
pub record Serving (h : Host) (q : Vring) : Type 0 where
  pub world : World h
  pub vring : q.VringState

module _ (h : Host) (q : Vring) where
  -- A call of the backend on one ring.
  abbrev pub Serve : Type 0 → Type 0
  Serve A = Exec (Serving h q) Stopped A

  -- The memory and the ring, which a call of the ring changes.
  abbrev pub ring_of : Serving h q → Memory × q.VringState
  ring_of s = (s.world.memory, s.vring)

  abbrev pub with_ring : Serving h q → Memory × q.VringState → Serving h q
  with_ring s r = record { world = record s.world { memory = r.0 }; vring = r.1 }

  -- A call of the ring, with what the code makes of its result.
  unfoldable pub on_ring :
      {A B : Type 0}
      → Exec (Memory × q.VringState) AnyError A
      → (Outcome AnyError A → Outcome Stopped B)
      → Serve B
  on_ring m f s = let r = m (ring_of s) in (f r.0, with_ring s r.1)

-- What the code makes of the results of the ring: `unwrap()`, and an error that is only logged.
abbrev pub unwrapped : {E A : Type 0} → Outcome E A → Outcome Stopped A
unwrapped (ok a) = ok a
unwrapped (err e) = panic
unwrapped panic = panic
unwrapped hang = hang

abbrev pub logged : Outcome AnyError (Unit {0}) → Outcome Stopped (Unit {0})
logged (ok a) = ok a
logged (err e) = ok tt
logged panic = panic
logged hang = hang

abbrev some_of : {A : Type 0} → Outcome Stopped A → Outcome Stopped (Option A)
some_of (ok a) = ok (some a)
some_of (err e) = err e
some_of panic = panic
some_of hang = hang

-- `exit_event` of the backend: the clone of the descriptor is unwrapped.
abbrev pub exit_event :
    {h : Host} {q : Vring} → VhostUserFsThread h q → Outcome Stopped (Option q.EventFd)
exit_event {q = q} thread = some_of (unwrapped (q.try_clone thread.kill_event_fd))
