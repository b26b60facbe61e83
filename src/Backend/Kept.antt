-- ===== src/Backend/Kept.antt =====
-- Invariants along the calls of src/main.rs, from those of the ring and of the file system.
use ovfs.Prelude.{ℕ, zero, suc, Bool, true, false, Option, none, some, List, [], ◌∷◌}
use ovfs.Prelude.Outcome.{Outcome, hang, Exec}
use ovfs.Prelude.Exec.Keeps.{
  Keeps, Keeps-bind, Keeps-lift, Keeps-pure, Keeps-raise, keeps_rules, Keeps-if,
}
use ovfs.Error.{AnyError}
use ovfs.Memory.{Memory}
use ovfs.Stream.{Reader, Writer}
use ovfs.Stream.Open.{GuestMemory}
use ovfs.Filesystem.State.{Host}
use ovfs.Backend.Vring.{Vring}
use ovfs.Backend.Device.{
  Stopped, VhostUserFsThread, Serving, on_ring, unwrapped, ring_of, with_ring,
}
use ovfs.Backend.Queue.{
  signal, notify, return_descriptor, chain_reader, chain_writer, serve_message, serve_chain,
  serve_chains, process_queue_with, process_queue_serial,
}
use ovfs.Backend.Event.{serve_loop, serve_ring}

module _ (h : Host) (q : Vring) (Inv : Serving h q → Type 0) where
  -- A call of the ring keeps `Inv`, in the world that it leaves.
  abbrev pub RingKeeps : {A : Type 0} → Exec (Memory × q.VringState) AnyError A → Type 0
  RingKeeps m = (s : Serving h q) → Inv s → Inv (with_ring h q s (m (ring_of h q s)).1)

  pub record IsKept : Type 0 where
    pub at_iter : RingKeeps q.iter
    pub at_add_used : (head len : ℕ) → RingKeeps (q.add_used head len)
    pub at_needs_notification : RingKeeps q.needs_notification
    pub at_signal_used_queue : RingKeeps q.signal_used_queue
    pub at_disable_notification : RingKeeps q.disable_notification
    pub at_enable_notification : RingKeeps q.enable_notification
    pub at_serve_message :
        (r : Reader h.volatile) (w : Writer h.volatile) → Keeps Inv (serve_message h q r w)

  pub Keeps-on_ring :
      {A B : Type 0} (m : Exec (Memory × q.VringState) AnyError A)
      (f : Outcome AnyError A → Outcome Stopped B)
      → RingKeeps m
      → Keeps Inv (on_ring h q m f)
  unfolding on_ring
  Keeps-on_ring m f k = record { at = k }

  module _ (K : IsKept) where
    pub Keeps-signal : Keeps Inv (signal h q)
    unfolding signal
    Keeps-signal = Keeps-on_ring q.signal_used_queue unwrapped K.at_signal_used_queue

    pub Keeps-notify : (event_idx : Bool) → Keeps Inv (notify h q event_idx)
    unfolding notify
    Keeps-notify true = search (keeps_rules, Keeps-on_ring, K.at_needs_notification, Keeps-signal)
    Keeps-notify false = Keeps-signal

    Keeps-return_descriptor :
        (head : ℕ) (event_idx : Bool) (len : ℕ)
        → Keeps Inv (return_descriptor h q head event_idx len)
    unfolding return_descriptor
    Keeps-return_descriptor head event_idx len =
        search (keeps_rules, Keeps-on_ring, K.at_add_used, Keeps-notify)

    Keeps-chain_reader :
        (mem : GuestMemory h.volatile) (chain : q.Chain) → Keeps Inv (chain_reader h q mem chain)
    unfolding chain_reader
    Keeps-chain_reader mem chain = record { at = λ s inv. inv }

    Keeps-chain_writer :
        (mem : GuestMemory h.volatile) (chain : q.Chain) → Keeps Inv (chain_writer h q mem chain)
    unfolding chain_writer
    Keeps-chain_writer mem chain = record { at = λ s inv. inv }

    Keeps-serve_chain :
        (mem : GuestMemory h.volatile) (event_idx : Bool) (chain : q.Chain)
        → Keeps Inv (serve_chain h q mem event_idx chain)
    unfolding serve_chain
    Keeps-serve_chain mem event_idx chain =
        search
          (
            keeps_rules, Keeps-chain_reader, Keeps-chain_writer, K.at_serve_message,
            Keeps-return_descriptor,
          )
          depth 10

    pub Keeps-serve_chains :
        (mem : GuestMemory h.volatile) (event_idx used_any : Bool) (chains : List q.Chain)
        → Keeps Inv (serve_chains h q mem event_idx used_any chains)
    unfolding serve_chains
    Keeps-serve_chains mem event_idx used_any [] = Keeps-pure used_any
    Keeps-serve_chains mem event_idx used_any (chain ∷ chains) =
        Keeps-bind _ _ (Keeps-serve_chain mem event_idx chain)
          λ done. Keeps-serve_chains mem event_idx true chains

    Keeps-process_queue_with :
        (mem : Option (GuestMemory h.volatile)) (event_idx : Bool)
        → Keeps Inv (process_queue_with h q mem event_idx)
    unfolding process_queue_with
    Keeps-process_queue_with none event_idx = Keeps-raise _
    Keeps-process_queue_with (some mem) event_idx =
        search (keeps_rules, Keeps-on_ring, K.at_iter, Keeps-serve_chains)

    pub Keeps-process_queue :
        (thread : VhostUserFsThread h q) → Keeps Inv (process_queue_serial h q thread)
    unfolding process_queue_serial
    Keeps-process_queue thread = Keeps-process_queue_with thread.mem thread.event_idx

    Keeps-serve_loop :
        (thread : VhostUserFsThread h q) (fuel : ℕ) → Keeps Inv (serve_loop h q thread fuel)
    unfolding serve_loop
    Keeps-serve_loop thread zero = Keeps-lift hang
    Keeps-serve_loop thread (suc fuel) =
        Keeps-bind _ _ (Keeps-on_ring q.disable_notification unwrapped K.at_disable_notification)
          λ _. Keeps-bind _ _ (Keeps-process_queue thread) λ _.
            Keeps-bind _ _ (Keeps-on_ring q.enable_notification unwrapped K.at_enable_notification)
              λ more. Keeps-if more _ _ (Keeps-serve_loop thread fuel) (Keeps-pure tt)

    pub Keeps-serve_ring :
        (thread : VhostUserFsThread h q) (fuel : ℕ) → Keeps Inv (serve_ring h q thread fuel)
    unfolding serve_ring
    Keeps-serve_ring thread fuel = search (keeps_rules, Keeps-process_queue, Keeps-serve_loop)
