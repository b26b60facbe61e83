-- ===== src/Backend/Ends.antt =====
-- Termination of the calls of src/main.rs but for the loop of `handle_event_serial`.
use ovfs.Prelude.{
  ℕ, ◌≡◌, ◌≢◌, refl, Bool, true, false, Option, none, some, List, [], ◌∷◌, if◌then◌else◌,
}
use ovfs.Prelude.Outcome.{Outcome, ok, err, panic, hang, Exec, map_err}
use ovfs.Prelude.Exec.Ends.{
  Ends, Ends-bind, Ends-lift, Ends-pure, Ends-raise, Ends-if, ends-map_err,
}
use ovfs.Error.{AnyError}
use ovfs.Memory.{Memory}
use ovfs.Volatile.{Volatile}
use ovfs.Stream.{Reader, Writer}
use ovfs.Stream.Open.{GuestMemory}
use ovfs.Stream.Ends.{ends-reader_new, ends-writer_new}
use ovfs.Filesystem.State.{Host}
use ovfs.Filesystem.Ends.Calls.{OperatorEnds}
use ovfs.Filesystem.Ends.Requests.{handle_message-ends}
use ovfs.Backend.Vring.{Vring}
use ovfs.Backend.Device.{Stopped, exited, VhostUserFsThread, on_ring, ring_of, unwrapped, logged}
use ovfs.Backend.Queue.{
  used_len_of, notified, signal, notify, return_descriptor, chain_reader, chain_writer,
  serve_message, serve_chain, serve_chains, process_queue_with, process_queue_serial,
}

-- No call of the ring loops for ever.
pub record RingEnds (q : Vring) : Type 0 where
  pub iter : Ends q.iter
  pub add_used : (head len : ℕ) → Ends (q.add_used head len)
  pub needs_notification : Ends q.needs_notification
  pub signal_used_queue : Ends q.signal_used_queue
  pub disable_notification : Ends q.disable_notification
  pub enable_notification : Ends q.enable_notification

-- No call of the guest's memory loops for ever.
pub record MemoryEnds {v : Volatile} (g : GuestMemory v) : Type 0 where
  pub get_slice : (region : g.Region) (offset n : ℕ) → g.get_slice region offset n ≢ hang

abbrev pub OptionEnds : {v : Volatile} → Option (GuestMemory v) → Type 1
OptionEnds {v} mem = (g : GuestMemory v) → mem ≡ some g → MemoryEnds g

pub ends-unwrapped : {E A : Type 0} (o : Outcome E A) → o ≢ hang → unwrapped o ≢ hang
ends-unwrapped (ok a) h = λ e. cc
ends-unwrapped (err x) h = λ e. cc
ends-unwrapped panic h = λ e. cc
ends-unwrapped hang h = absurd (h refl)

ends-logged : (o : Outcome AnyError (Unit {0})) → o ≢ hang → logged o ≢ hang
ends-logged (ok a) h = λ e. cc
ends-logged (err x) h = λ e. cc
ends-logged panic h = λ e. cc
ends-logged hang h = absurd (h refl)

pub ends-notified : (o : Outcome AnyError Bool) → o ≢ hang → notified o ≢ hang
ends-notified (ok a) h = λ e. cc
ends-notified (err x) h = λ e. cc
ends-notified panic h = λ e. cc
ends-notified hang h = absurd (h refl)

ends-if_ok :
    (b : Bool) (n : ℕ) → ◌≢◌ {A = Outcome Stopped ℕ} (if b then ok n else err (exited 1)) hang
ends-if_ok true n = λ e. cc
ends-if_ok false n = λ e. cc

ends-used_len_of : (len : ℕ) → used_len_of len ≢ hang
unfolding used_len_of
ends-used_len_of len = ends-if_ok _ len

module _ (h : Host) (q : Vring) (C : OperatorEnds h.core) (R : RingEnds q) where
  pub Ends-on_ring :
      {A B : Type 0} (m : Exec (Memory × q.VringState) AnyError A)
      (f : Outcome AnyError A → Outcome Stopped B)
      → Ends m
      → ((o : Outcome AnyError A) → o ≢ hang → f o ≢ hang)
      → Ends (on_ring h q m f)
  unfolding on_ring
  Ends-on_ring m f e k = record { at = λ s. k (m (ring_of h q s)).0 (e.at (ring_of h q s)) }

  Ends-signal : Ends (signal h q)
  unfolding signal
  Ends-signal = Ends-on_ring q.signal_used_queue unwrapped R.signal_used_queue ends-unwrapped

  Ends-notify : (event_idx : Bool) → Ends (notify h q event_idx)
  unfolding notify
  Ends-notify true =
      Ends-bind _ _ (Ends-on_ring q.needs_notification notified R.needs_notification ends-notified)
        λ needed. Ends-if needed _ _ Ends-signal (Ends-pure tt)
  Ends-notify false = Ends-signal

  Ends-return_descriptor :
      (head : ℕ) (event_idx : Bool) (len : ℕ) → Ends (return_descriptor h q head event_idx len)
  unfolding return_descriptor
  Ends-return_descriptor head event_idx len =
      Ends-bind _ _ (Ends-lift (used_len_of len) (ends-used_len_of len)) λ used_len.
        Ends-bind _ _
          (Ends-on_ring (q.add_used head used_len) logged (R.add_used head used_len) ends-logged)
          λ _. Ends-notify event_idx

  Ends-chain_reader :
      (mem : GuestMemory h.volatile) (chain : q.Chain)
      → MemoryEnds mem
      → Ends (chain_reader h q mem chain)
  unfolding chain_reader
  Ends-chain_reader mem chain M = record {
    at = λ s. ends-unwrapped _ (ends-reader_new h.volatile mem M.get_slice _);
  }

  Ends-chain_writer :
      (mem : GuestMemory h.volatile) (chain : q.Chain)
      → MemoryEnds mem
      → Ends (chain_writer h q mem chain)
  unfolding chain_writer
  Ends-chain_writer mem chain M = record {
    at = λ s. ends-unwrapped _ (ends-writer_new h.volatile mem M.get_slice _);
  }

  Ends-serve_message :
      (r : Reader h.volatile) (w : Writer h.volatile) → Ends (serve_message h q r w)
  unfolding serve_message
  Ends-serve_message r w = record {
    at = λ s. ends-unwrapped _ (handle_message-ends h C r w s.world);
  }

  Ends-serve_chain :
      (mem : GuestMemory h.volatile) (event_idx : Bool) (chain : q.Chain)
      → MemoryEnds mem
      → Ends (serve_chain h q mem event_idx chain)
  unfolding serve_chain
  Ends-serve_chain mem event_idx chain M = Ends-bind _ _ (Ends-chain_reader mem chain M) λ reader.
      Ends-bind _ _ (Ends-chain_writer mem chain M) λ writer.
        Ends-bind _ _ (Ends-serve_message reader writer)
          λ len. Ends-return_descriptor (q.head_index chain) event_idx len

  Ends-serve_chains :
      (mem : GuestMemory h.volatile) (event_idx used_any : Bool) (chains : List q.Chain)
      → MemoryEnds mem
      → Ends (serve_chains h q mem event_idx used_any chains)
  unfolding serve_chains
  Ends-serve_chains mem event_idx used_any [] M = Ends-pure used_any
  Ends-serve_chains mem event_idx used_any (chain ∷ chains) M =
      Ends-bind _ _ (Ends-serve_chain mem event_idx chain M)
        λ done. Ends-serve_chains mem event_idx true chains M

  Ends-process_queue_with :
      (mem : Option (GuestMemory h.volatile)) (event_idx : Bool)
      → OptionEnds mem
      → Ends (process_queue_with h q mem event_idx)
  unfolding process_queue_with
  Ends-process_queue_with none event_idx M = Ends-raise _
  Ends-process_queue_with (some mem) event_idx M =
      Ends-bind _ _ (Ends-on_ring q.iter (map_err _) R.iter (ends-map_err _))
        λ chains. Ends-serve_chains mem event_idx false chains (M mem refl)

  pub Ends-process_queue :
      (thread : VhostUserFsThread h q)
      → OptionEnds thread.mem
      → Ends (process_queue_serial h q thread)
  unfolding process_queue_serial
  Ends-process_queue thread M = Ends-process_queue_with thread.mem thread.event_idx M
