-- ===== src/Backend/Malformed.antt =====
-- A message that is too short for a header, in `process_queue_serial` of src/main.rs.
use ovfs.Prelude.{◌<◌, ◌≡◌, sym, ap, ◌∙◌, Bool, List, ◌∷◌}
use ovfs.Prelude.Outcome.{ok, panic, map_err}
use ovfs.Prelude.Exec.{>>=-at_ok, >>=-at_panic}
use ovfs.Memory.{Memory}
use ovfs.Volatile.{IsVolatile}
use ovfs.Chain.Flat.{IsValid, room}
use ovfs.Stream.{Reader, Writer}
use ovfs.Stream.Open.{GuestMemory, IsGuestMemory, reader_new, writer_new, reader_new_lem, total_len}
use ovfs.Filesystem.State.{Host}
use ovfs.Filesystem.Dispatch.Answers.{handle_message-short}
use ovfs.Backend.Vring.{Vring}
use ovfs.Backend.Device.{
  VhostUserFsThread, Serving, update_memory, on_ring, ring_of, with_ring, unwrapped,
}
use ovfs.Backend.Queue.{
  chain_reader, chain_writer, serve_message, serve_chain, serve_chains, process_queue_with,
  process_queue_serial, no_iteration,
}
use mathlib.Core.Path.{subst}

module _ (h : Host) (q : Vring) (V : IsVolatile h.volatile) where
  serve_message-short :
      (r : Reader h.volatile) (w : Writer h.volatile) (s : Serving h q)
      → IsValid h.volatile r.buffer
      → room h.volatile r.buffer < 40
      → serve_message h q r w s ≡ (panic, s)
  unfolding serve_message
  serve_message-short r w s valid short =
      ap (λ o. (unwrapped o.0, record s { world = o.1 }))
        (handle_message-short h V r w s.world valid short)

  module _ (mem : GuestMemory h.volatile) (G : IsGuestMemory h.volatile mem) where
    serve_chain-short :
        (event_idx : Bool) (chain : q.Chain) (s : Serving h q) {r : Reader h.volatile}
        {w : Writer h.volatile}
        → reader_new h.volatile mem (q.readable s.world.memory chain) ≡ ok r
        → writer_new h.volatile mem (q.writable s.world.memory chain) ≡ ok w
        → total_len h.volatile mem (q.readable s.world.memory chain) < 40
        → serve_chain h q mem event_idx chain s ≡ (panic, s)
    unfolding serve_chain chain_reader chain_writer
    serve_chain-short event_idx chain s {r} {w} e1 e2 short =
        let (valid, size) = reader_new_lem h.volatile mem G _ e1 in
        >>=-at_ok (chain_reader h q mem chain) _ s (ap (λ o. (unwrapped o, s)) e1)
        ∙ >>=-at_ok (chain_writer h q mem chain) _ s (ap (λ o. (unwrapped o, s)) e2)
        ∙ >>=-at_panic (serve_message h q r w) _ s
            (serve_message-short r w s valid (subst (λ n. n < 40) (sym size) short))

    -- Over guest memory that does what it documents: if the ring gives chains for a round, the
    -- first of them opens for reading and for writing, and its readable descriptors have fewer
    -- than the 40 bytes of a header together, then process_queue_serial panics, and changes
    -- nothing but what the ring changed when it gave the chains.
    pub process_queue-short :
        (thread : VhostUserFsThread h q) (s : Serving h q) {chain : q.Chain} {chains : List q.Chain}
        {ring : Memory × q.VringState} {r : Reader h.volatile} {w : Writer h.volatile}
        → q.iter (ring_of h q s) ≡ (ok (chain ∷ chains), ring)
        → reader_new h.volatile mem (q.readable ring.0 chain) ≡ ok r
        → writer_new h.volatile mem (q.writable ring.0 chain) ≡ ok w
        → total_len h.volatile mem (q.readable ring.0 chain) < 40
        → process_queue_serial h q (update_memory mem thread) s ≡ (panic, with_ring h q s ring)
    unfolding process_queue_serial process_queue_with update_memory serve_chains on_ring
    process_queue-short thread s {chain} {chains} {ring} given e1 e2 short =
        >>=-at_ok (on_ring h q q.iter (map_err no_iteration)) _ s
          (ap (λ x. (map_err no_iteration x.0, with_ring h q s x.1)) given)
        ∙ >>=-at_panic (serve_chain h q mem thread.event_idx chain) _ _
            (serve_chain-short thread.event_idx chain (with_ring h q s ring) e1 e2 short)
