-- ===== src/Backend/Event.antt =====
-- `handle_event_serial` and `handle_event` of src/main.rs, and the constants of the backend.
use ovfs.Prelude.{ℕ, zero, suc, not, none, some, List, [], ◌∷◌, get_elem?, ◌==◌, if◌then◌else◌}
use ovfs.Prelude.Outcome.{panic, hang, Exec, or_raise}
use ovfs.Prelude.Exec.{pure, raise, lift, ◌>>=◌, ◌>>◌}
use ovfs.Error.{Error, IoError, new_unexpected_error, to_io_error}
use ovfs.Filesystem.State.{Host, World}
use ovfs.Backend.Vring.{Vring}
use ovfs.Backend.Device.{
  Stop, Stopped, failed, map_stop, VhostUserFsThread, Serve, on_ring, unwrapped, hiprio_queue_event,
  req_queue_event,
}
use ovfs.Backend.Queue.{process_queue_serial}

-- The file system, and the rings that an event is about.
pub record Rings (h : Host) (q : Vring) : Type 0 where
  pub world : World h
  pub vrings : List q.VringState

abbrev pub set_elem {ℓ} : {A : Type ℓ} → List A → ℕ → A → List A
set_elem [] i a = []
set_elem (x ∷ xs) zero a = a ∷ xs
set_elem (x ∷ xs) (suc i) a = x ∷ set_elem xs i a

abbrev pub unknown_event : Stopped
unknown_event = failed (new_unexpected_error "failed to handle unknown event" none)

abbrev pub no_input_event : Error
no_input_event = new_unexpected_error "failed to handle event other than input event" none

module _ (h : Host) (q : Vring) (thread : VhostUserFsThread h q) where
  -- The `loop` under `event_idx`.
  unfoldable pub serve_loop : ℕ → Serve h q (Unit {0})
  unfolding on_ring process_queue_serial
  serve_loop zero = lift hang
  serve_loop (suc fuel) = do
    let again = serve_loop fuel
    on_ring h q q.disable_notification unwrapped
    process_queue_serial h q thread
    more ← on_ring h q q.enable_notification unwrapped
    if more then again else pure tt

  unfoldable pub serve_ring : ℕ → Serve h q (Unit {0})
  unfolding serve_loop process_queue_serial
  serve_ring fuel =
      if thread.event_idx
      then serve_loop fuel
      else process_queue_serial h q thread >>= λ used_any. pure tt

  -- `vrings[i].get_mut()`, then the rest of `handle_event_serial` on that ring.
  unfoldable pub on_vring : ℕ → Serve h q (Unit {0}) → Exec (Rings h q) Stopped (Unit {0})
  on_vring i m s = elim (get_elem? s.vrings i) [
    | none ↦ (panic, s)
    | some vring ↦
        let r = m (record { world = s.world; vring = vring }) in
        (r.0, record { world = r.1.world; vrings = set_elem s.vrings i r.1.vring })
  ]

  unfoldable pub handle_event_serial : ℕ → ℕ → Exec (Rings h q) Stopped (Unit {0})
  unfolding on_vring serve_ring
  handle_event_serial fuel device_event =
      if device_event == hiprio_queue_event
      then on_vring 0 (serve_ring fuel)
      else if device_event == req_queue_event
      then on_vring 1 (serve_ring fuel)
      else raise unknown_event

  unfoldable pub handle_event : ℕ → ℕ → ℕ → Exec (Rings h q) (Stop IoError) (Unit {0})
  unfolding handle_event_serial
  handle_event fuel device_event evset =
      if not (evset == q.event_in)
      then raise (failed (to_io_error no_input_event))
      else or_raise (map_stop to_io_error) (handle_event_serial fuel device_event)
