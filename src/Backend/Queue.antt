-- ===== src/Backend/Queue.antt =====
-- `return_descriptor` and `process_queue_serial` of src/main.rs.
use ovfs.Prelude.{ℕ, ◌^◌, Bool, true, false, Option, none, some, List, [], ◌∷◌, ltb, if◌then◌else◌}
use ovfs.Prelude.Outcome.{Outcome, ok, err, panic, hang, map_err}
use ovfs.Prelude.Exec.{pure, raise, lift, ◌>>=◌, ◌>>◌}
use ovfs.Error.{AnyError, new_unexpected_error}
use ovfs.Stream.{Reader, Writer}
use ovfs.Stream.Open.{GuestMemory, reader_new, writer_new}
use ovfs.Filesystem.State.{Host}
use ovfs.Filesystem.Dispatch.{handle_message}
use ovfs.Backend.Vring.{Vring}
use ovfs.Backend.Device.{
  Stopped, failed, exited, VhostUserFsThread, Serve, on_ring, unwrapped, logged,
}

-- `len.try_into()` to a `u32`; the error ends the process by `exit(1)`.
unfoldable pub used_len_of : ℕ → Outcome Stopped ℕ
used_len_of len = if ltb len (2 ^ 32) then ok len else err (exited 1)

-- An error of `needs_notification` notifies, as `true` does.
abbrev pub notified : Outcome AnyError Bool → Outcome Stopped Bool
notified (ok b) = ok b
notified (err e) = ok true
notified panic = panic
notified hang = hang

abbrev pub no_memory : Stopped
no_memory = failed (new_unexpected_error "no memory configured" none)

abbrev pub no_iteration : AnyError → Stopped
no_iteration e = failed (new_unexpected_error "iterating through the queue failed" none)

module _ (h : Host) (q : Vring) where
  unfoldable pub signal : Serve h q (Unit {0})
  unfolding on_ring
  signal = on_ring h q q.signal_used_queue unwrapped

  unfoldable pub notify : Bool → Serve h q (Unit {0})
  unfolding on_ring signal
  notify true = do
    needed ← on_ring h q q.needs_notification notified
    if needed then signal else pure tt
  notify false = signal

  unfoldable pub return_descriptor : ℕ → Bool → ℕ → Serve h q (Unit {0})
  unfolding used_len_of on_ring notify
  return_descriptor head_index event_idx len = do
    used_len ← lift (used_len_of len)
    on_ring h q (q.add_used head_index used_len) logged
    notify event_idx

  -- `Reader::new(..).map_err(..).unwrap()`, and so for the writer: the descriptors are read from guest
  -- memory now.
  unfoldable pub chain_reader : GuestMemory h.volatile → q.Chain → Serve h q (Reader h.volatile)
  unfolding reader_new
  chain_reader mem chain s =
      (unwrapped (reader_new h.volatile mem (q.readable s.world.memory chain)), s)

  unfoldable pub chain_writer : GuestMemory h.volatile → q.Chain → Serve h q (Writer h.volatile)
  unfolding writer_new
  chain_writer mem chain s =
      (unwrapped (writer_new h.volatile mem (q.writable s.world.memory chain)), s)

  -- `handle_message(reader, writer).map_err(..).unwrap()`
  unfoldable pub serve_message : Reader h.volatile → Writer h.volatile → Serve h q ℕ
  unfolding handle_message
  serve_message r w s =
      let o = handle_message h r w s.world in (unwrapped o.0, record s { world = o.1 })

  -- One round of the loop over the chains.
  unfoldable pub serve_chain : GuestMemory h.volatile → Bool → q.Chain → Serve h q (Unit {0})
  unfolding chain_reader chain_writer serve_message return_descriptor
  serve_chain mem event_idx chain = do
    reader ← chain_reader mem chain
    writer ← chain_writer mem chain
    len ← serve_message reader writer
    return_descriptor (q.head_index chain) event_idx len

  -- The loop: whether a chain was used.
  unfoldable pub serve_chains : GuestMemory h.volatile → Bool → Bool → List q.Chain → Serve h q Bool
  unfolding serve_chain
  serve_chains mem event_idx used_any [] = pure used_any
  serve_chains mem event_idx used_any (chain ∷ chains) = do
    serve_chain mem event_idx chain
    serve_chains mem event_idx true chains

  unfoldable pub process_queue_with : Option (GuestMemory h.volatile) → Bool → Serve h q Bool
  unfolding on_ring serve_chains
  process_queue_with none event_idx = raise no_memory
  process_queue_with (some mem) event_idx = do
    avail_chains ← on_ring h q q.iter (map_err no_iteration)
    serve_chains mem event_idx false avail_chains

  unfoldable pub process_queue_serial : VhostUserFsThread h q → Serve h q Bool
  unfolding process_queue_with
  process_queue_serial thread = process_queue_with thread.mem thread.event_idx
