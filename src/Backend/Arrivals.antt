-- ===== src/Backend/Arrivals.antt =====
-- The available chains of the rings of src/main.rs, along `process_queue_serial`.
use ovfs.Prelude.{
  ℕ, ◌≤◌, ◌<◌, ◌≡◌, ap, Bool, true, false, Option, none, some, List, length, ◌+◌, arith,
}
use ovfs.Prelude.Outcome.{map_err, Outcome, ok, err, panic, hang}
use ovfs.Prelude.Result.{map_err-ok}
use ovfs.Prelude.Exec.{raise, >>=-inv}
use ovfs.Error.{AnyError}
use ovfs.Memory.{Memory}
use ovfs.Stream.Open.{GuestMemory}
use ovfs.Filesystem.State.{Host}
use ovfs.Backend.Vring.{Vring}
use ovfs.Backend.Device.{Serving, on_ring, ring_of, unwrapped}
use ovfs.Backend.Queue.{serve_message, process_queue_with, no_iteration}
use ovfs.Backend.Kept.{IsKept, Keeps-serve_chains}
use mathlib.Core.Path.{subst}
use native.Mathlib.Nat.{le_refl}

-- What the library documents of the available chains, over a guest that makes finitely many of them
-- available and leaves the ring readable. `waiting` counts the chains that can be taken now, and
-- `unserved` those that are waiting or still to come. `enable_notification` answers true while a chain
-- waits, `iter` takes a chain if one waits, and no call of the ring makes more of them.
pub record Arrivals (q : Vring) : Type 0 where
  pub waiting : Memory × q.VringState → ℕ
  pub unserved : q.VringState → ℕ
  pub waiting-enable :
      (s : Memory × q.VringState) {s' : Memory × q.VringState}
      → q.enable_notification s ≡ (ok true, s')
      → 0 < waiting s'
  pub waiting-disable :
      (s : Memory × q.VringState) → waiting s ≤ waiting (q.disable_notification s).1
  pub some-iter :
      (s : Memory × q.VringState) {chains : List q.Chain} {s' : Memory × q.VringState}
      → q.iter s ≡ (ok chains, s')
      → 0 < waiting s
      → 0 < length chains
  pub taken-iter :
      (s : Memory × q.VringState) {chains : List q.Chain} {s' : Memory × q.VringState}
      → q.iter s ≡ (ok chains, s')
      → unserved s'.1 + length chains ≤ unserved s.1
  pub unserved-iter : (s : Memory × q.VringState) → unserved (q.iter s).1.1 ≤ unserved s.1
  pub unserved-add_used :
      (head len : ℕ) (s : Memory × q.VringState)
      → unserved (q.add_used head len s).1.1 ≤ unserved s.1
  pub unserved-needs :
      (s : Memory × q.VringState) → unserved (q.needs_notification s).1.1 ≤ unserved s.1
  pub unserved-signal :
      (s : Memory × q.VringState) → unserved (q.signal_used_queue s).1.1 ≤ unserved s.1
  pub unserved-disable :
      (s : Memory × q.VringState) → unserved (q.disable_notification s).1.1 ≤ unserved s.1
  pub unserved-enable :
      (s : Memory × q.VringState) → unserved (q.enable_notification s).1.1 ≤ unserved s.1

-- A call of the ring that gives a value, and the value that the code takes.
unwrapped-eq-ok : (o : Outcome AnyError Bool) {b : Bool} → unwrapped o ≡ ok b → o ≡ ok b
unwrapped-eq-ok (ok a) e = cc
unwrapped-eq-ok (err x) e = cc
unwrapped-eq-ok panic e = cc
unwrapped-eq-ok hang e = cc

-- The chains that wait and the chains that are unserved, along the calls of the backend.
module _ (h : Host) (q : Vring) (A : Arrivals q) where
  abbrev pub AtMost : ℕ → Serving h q → Type 0
  AtMost n s = A.unserved s.vring ≤ n

  abbrev pub Waits : Serving h q → Type 0
  Waits s = 0 < A.waiting (ring_of h q s)

  pub IsKept-AtMost : (n : ℕ) → IsKept h q (AtMost n)
  unfolding serve_message
  IsKept-AtMost n = record {
    at_iter = λ s few. omega (arith, A.unserved-iter (ring_of h q s));
    at_add_used = λ head len s few. omega (arith, A.unserved-add_used head len (ring_of h q s));
    at_needs_notification = λ s few. omega (arith, A.unserved-needs (ring_of h q s));
    at_signal_used_queue = λ s few. omega (arith, A.unserved-signal (ring_of h q s));
    at_disable_notification = λ s few. omega (arith, A.unserved-disable (ring_of h q s));
    at_enable_notification = λ s few. omega (arith, A.unserved-enable (ring_of h q s));
    at_serve_message = λ r w. record { at = λ s few. few };
  }

  -- Whether a chain waits is the answer of the ring.
  pub enable-Waits :
      (s : Serving h q) {s' : Serving h q}
      → on_ring h q q.enable_notification unwrapped s ≡ (ok true, s')
      → Waits s'
  unfolding on_ring
  enable-Waits s e = subst Waits (ap (λ r. r.1) e) (
      A.waiting-enable (ring_of h q s) (
        ap (λ o. (o, (q.enable_notification (ring_of h q s)).1))
          (unwrapped-eq-ok _ (ap (λ r. r.0) e))))

  pub disable-Waits :
      (s : Serving h q) → Waits s → Waits (on_ring h q q.disable_notification unwrapped s).1
  unfolding on_ring
  disable-Waits s waits = omega (arith, A.waiting-disable (ring_of h q s))

  -- A round takes a chain if one waits.
  iter-fewer :
      (s : Serving h q) {chains : List q.Chain} {s' : Serving h q}
      → Waits s
      → on_ring h q q.iter (map_err no_iteration) s ≡ (ok chains, s')
      → A.unserved s'.vring < A.unserved s.vring
  unfolding on_ring
  iter-fewer s {chains} waits e =
      let r = ring_of h q s in
      let given : q.iter r ≡ (ok chains, (q.iter r).1) =
        ap (λ o. (o, (q.iter r).1)) (map_err-ok no_iteration _ (ap (λ r. r.0) e)) in
      let fewer : A.unserved (q.iter r).1.1 < A.unserved s.vring =
        omega (arith, A.taken-iter r given, A.some-iter r given waits) in
      subst (λ t. A.unserved t.vring < A.unserved s.vring) (ap (λ r. r.1) e) fewer

  pub process_queue_with-fewer :
      (mem : Option (GuestMemory h.volatile)) (event_idx : Bool) (s : Serving h q) {b : Bool}
      {s' : Serving h q}
      → Waits s
      → process_queue_with h q mem event_idx s ≡ (ok b, s')
      → A.unserved s'.vring < A.unserved s.vring
  unfolding process_queue_with raise
  process_queue_with-fewer none event_idx s waits e = cc
  process_queue_with-fewer (some mem) event_idx s {b} {s'} waits e =
      let (chains, s1, e1, r1) = >>=-inv (on_ring h q q.iter (map_err no_iteration)) _ s e in
      let n = A.unserved s1.vring in
      let kept =
        (Keeps-serve_chains h q (AtMost n) (IsKept-AtMost n) mem event_idx false chains).at s1
          (le_refl n) in
      let few : A.unserved s'.vring ≤ n = subst (AtMost n) (ap (λ r. r.1) r1) kept in
      omega (arith, iter-fewer s waits e1)
