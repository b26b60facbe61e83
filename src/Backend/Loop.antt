-- ===== src/Backend/Loop.antt =====
-- Termination of the loop of `handle_event_serial` of src/main.rs, and of `handle_event`.
use ovfs.Prelude.{
  Option-cases, inl, inr, get_elem?, ◌==◌, not, ℕ, zero, suc, ◌≤◌, ◌<◌, ◌≡◌, ◌≢◌, Bool, true, false,
  some, ◌+◌, if◌then◌else◌, arith,
}
use ovfs.Prelude.Outcome.{or_raise, ok, hang, Exec}
use ovfs.Prelude.Exec.{pure, raise}
use ovfs.Prelude.Exec.Ends.{Ends-bind, Ends-pure, Ends-raise, ends-map_err, ends-bind_at}
use ovfs.Error.{to_io_error}
use ovfs.Filesystem.State.{Host}
use ovfs.Filesystem.Ends.Calls.{OperatorEnds}
use ovfs.Backend.Vring.{Vring}
use ovfs.Backend.Device.{
  Stopped, failed, map_stop, hiprio_queue_event, req_queue_event, Serve, VhostUserFsThread, Serving,
  on_ring, ring_of, unwrapped,
}
use ovfs.Backend.Queue.{process_queue_serial}
use ovfs.Backend.Arrivals.{
  Arrivals, AtMost, Waits, IsKept-AtMost, enable-Waits, disable-Waits, process_queue_with-fewer,
}
use ovfs.Backend.Event.{
  Rings, on_vring, handle_event_serial, handle_event, no_input_event, unknown_event, serve_loop,
  serve_ring,
}
use ovfs.Backend.Kept.{Keeps-on_ring, Keeps-process_queue}
use native.Mathlib.Nat.{le_refl}
use ovfs.Backend.Ends.{RingEnds, OptionEnds, ends-unwrapped, Ends-on_ring, Ends-process_queue}

ends-either :
    {S A : Type 0} (test : Bool) (s : S) (then_call else_call : Exec S Stopped A)
    → (then_call s).0 ≢ hang
    → (else_call s).0 ≢ hang
    → ((if test then then_call else else_call) s).0 ≢ hang
ends-either true s then_call else_call a b = a
ends-either false s then_call else_call a b = b

module _ (h : Host) (q : Vring) (C : OperatorEnds h.core) (R : RingEnds q) (A : Arrivals q) where
  module _ (thread : VhostUserFsThread h q) (M : OptionEnds thread.mem) where
    abbrev disable : Serve h q (Unit {0})
    disable = on_ring h q q.disable_notification unwrapped

    abbrev enable : Serve h q Bool
    enable = on_ring h q q.enable_notification unwrapped

    abbrev EndsAgain : ℕ → Type 0
    EndsAgain fuel =
        (s : Serving h q)
        → Waits h q A s
        → A.unserved s.vring < fuel
        → (serve_loop h q thread fuel s).0 ≢ hang

    -- The ring is served again only if a chain waits.
    serve_again :
        (fuel : ℕ) (s : Serving h q) (more : Bool)
        → A.unserved s.vring < fuel
        → enable s ≡ (ok more, (enable s).1)
        → EndsAgain fuel
        → ((if more then serve_loop h q thread fuel else pure tt) (enable s).1).0 ≢ hang
    unfolding pure
    serve_again fuel s true few e again = again (enable s).1 (enable-Waits h q A s e) (
        (Keeps-on_ring h q (λ t. A.unserved t.vring < fuel) q.enable_notification unwrapped
            λ t few. omega (arith, A.unserved-enable (ring_of h q t))).at
          s few)
    serve_again fuel s false few e again = λ p. cc

    -- One round of the loop, which leaves fewer chains than the fuel for the next.
    round-ends :
        (fuel : ℕ) (s : Serving h q)
        → ((b : Bool)
            → process_queue_serial h q thread (disable s).1
              ≡ (ok b, (process_queue_serial h q thread (disable s).1).1)
            → A.unserved (process_queue_serial h q thread (disable s).1).1.vring < fuel)
        → EndsAgain fuel
        → (serve_loop h q thread (suc fuel) s).0 ≢ hang
    unfolding serve_loop
    round-ends fuel s few again =
        let s1 = (disable s).1 in
        let s2 = (process_queue_serial h q thread s1).1 in
        ends-bind_at disable _ s
          ((Ends-on_ring h q C R q.disable_notification unwrapped R.disable_notification
              ends-unwrapped).at
            s)
          λ u1 e1.
            ends-bind_at (process_queue_serial h q thread) _ s1
              ((Ends-process_queue h q C R thread M).at s1)
              λ u2 e2.
                ends-bind_at enable _ s2
                  ((Ends-on_ring h q C R q.enable_notification unwrapped R.enable_notification
                      ends-unwrapped).at
                    s2)
                  λ more e3. serve_again fuel s2 more (few u2 e2) e3 again

    kept-disable : (s : Serving h q) → A.unserved (disable s).1.vring ≤ A.unserved s.vring
    unfolding on_ring
    kept-disable s = A.unserved-disable (ring_of h q s)

    kept-unserved :
        (s : Serving h q)
        → A.unserved (process_queue_serial h q thread s).1.vring ≤ A.unserved s.vring
    kept-unserved s =
        let n = A.unserved s.vring in
        (Keeps-process_queue h q (AtMost h q A n) (IsKept-AtMost h q A n) thread).at s (le_refl n)

    process_queue-fewer :
        (s : Serving h q) {b : Bool} {s' : Serving h q}
        → Waits h q A s
        → process_queue_serial h q thread s ≡ (ok b, s')
        → A.unserved s'.vring < A.unserved s.vring
    unfolding process_queue_serial
    process_queue-fewer s waits e =
        process_queue_with-fewer h q A thread.mem thread.event_idx s waits e

    ends_again : (fuel : ℕ) → EndsAgain fuel
    ends_again zero s waits few = absurd (omega arith)
    ends_again (suc fuel) s waits few =
        round-ends fuel s
          (λ b e. omega (
            arith,
            kept-disable s,
            process_queue-fewer (disable s).1 (disable-Waits h q A s waits) e,
          ))
          (ends_again fuel)

    serve_loop-ends :
        (fuel : ℕ) (s : Serving h q)
        → A.unserved s.vring + 1 < fuel
        → (serve_loop h q thread fuel s).0 ≢ hang
    serve_loop-ends zero s few = absurd (omega arith)
    serve_loop-ends (suc fuel) s few =
        round-ends fuel s (λ b e. omega (arith, kept-disable s, kept-unserved (disable s).1))
          (ends_again fuel)

    Ends-serve_ring :
        (fuel : ℕ) (s : Serving h q)
        → A.unserved s.vring + 1 < fuel
        → (serve_ring h q thread fuel s).0 ≢ hang
    unfolding serve_ring
    Ends-serve_ring fuel s few =
        ends-either thread.event_idx s (serve_loop h q thread fuel) _ (serve_loop-ends fuel s few) (
          (Ends-bind (process_queue_serial h q thread) _ (Ends-process_queue h q C R thread M)
              λ used. Ends-pure tt).at
            s)

    abbrev FewUnserved : ℕ → Rings h q → Type 0
    FewUnserved fuel s =
        (i : ℕ) (vring : q.VringState)
        → get_elem? s.vrings i ≡ some vring
        → A.unserved vring + 1 < fuel

    ends-on_vring :
        (i fuel : ℕ) (s : Rings h q)
        → FewUnserved fuel s
        → (on_vring h q thread i (serve_ring h q thread fuel) s).0 ≢ hang
    unfolding on_vring
    ends-on_vring i fuel s few = elim (Option-cases (get_elem? s.vrings i)) [
      | inl e ↦ rw (e, on_vring) (λ p. cc)
      | inr (vring, e) ↦
          rw (e, on_vring)
            (Ends-serve_ring fuel (record { world = s.world; vring = vring }) (few i vring e))
    ]

    ends-handle_event_serial :
        (fuel event : ℕ) (s : Rings h q)
        → FewUnserved fuel s
        → (handle_event_serial h q thread fuel event s).0 ≢ hang
    unfolding handle_event_serial
    ends-handle_event_serial fuel event s few =
        ends-either (event == hiprio_queue_event) s _ _ (ends-on_vring 0 fuel s few) (
          ends-either (event == req_queue_event) s _ _ (ends-on_vring 1 fuel s few)
            ((Ends-raise unknown_event).at s))

    ends-handle_event_if :
        (test : Bool) (fuel event : ℕ) (s : Rings h q)
        → FewUnserved fuel s
        → ((if test
              then raise (failed (to_io_error no_input_event))
              else or_raise (map_stop to_io_error) (handle_event_serial h q thread fuel event))
            s).0
          ≢ hang
    ends-handle_event_if true fuel event s few =
        (Ends-raise (failed (to_io_error no_input_event))).at s
    ends-handle_event_if false fuel event s few =
        ends-map_err (map_stop to_io_error) _ (ends-handle_event_serial fuel event s few)

    -- Over a guest that makes finitely many chains available, and a ring that answers that chains
    -- wait only while one does and then gives one: if no call of the ring, of the guest's memory
    -- or of the storage loops for ever, and the fuel is above the number of the chains of each
    -- ring that are not served yet by two at least, then handle_event, whose loop serves a ring
    -- until no chain waits, ends for every event.
    pub handle_event-ends :
        (fuel event evset : ℕ) (s : Rings h q)
        → ((i : ℕ) (vring : q.VringState)
            → get_elem? s.vrings i ≡ some vring
            → A.unserved vring + 1 < fuel)
        → (handle_event h q thread fuel event evset s).0 ≢ hang
    unfolding handle_event
    handle_event-ends fuel event evset s few =
        ends-handle_event_if (not (evset == q.event_in)) fuel event s few
