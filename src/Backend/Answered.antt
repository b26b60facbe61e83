-- ===== src/Backend/Answered.antt =====
-- What `handle_event` of src/main.rs does with the rings, where the guest did not ask for event indices.
use ovfs.Prelude.{
  ℕ, zero, suc, ◌<◌, ◌≡◌, ◌≢◌, refl, sym, ap, ◌∙◌, Bool, true, false, not, some, List, [], ◌∷◌,
  ◌++◌, map, get_elem?, ◌==◌, ◌⊎◌, inl, inr, arith, if◌then◌else◌,
}
use ovfs.Prelude.Outcome.{Outcome, ok, err, Exec, or_raise}
use ovfs.Prelude.Result.{map_err-ok}
use ovfs.Prelude.Exec.{pure, raise, >>=-inv}
use ovfs.Error.{to_io_error}
use ovfs.Memory.{Memory}
use ovfs.Filesystem.State.{Host}
use ovfs.Backend.Vring.{Vring, UsedRing}
use ovfs.Backend.Device.{
  Stopped, failed, map_stop, VhostUserFsThread, Serving, Serve, hiprio_queue_event, req_queue_event,
}
use ovfs.Backend.Queue.{process_queue_serial}
use ovfs.Backend.Event.{
  Rings, set_elem, on_vring, serve_ring, serve_loop, handle_event_serial, handle_event,
  unknown_event, no_input_event,
}
use ovfs.Backend.Returned.{heads, taken, process_queue-returns}
use mathlib.Core.Path.{subst}

get_elem?-set_elem :
    {A : Type 0} (xs : List A) (i : ℕ) (a x : A)
    → get_elem? xs i ≡ some x
    → get_elem? (set_elem xs i a) i ≡ some a
get_elem?-set_elem [] i a x e = cc
get_elem?-set_elem (y ∷ xs) zero a x e = refl
get_elem?-set_elem (y ∷ xs) (suc i) a x e = get_elem?-set_elem xs i a x e

get_elem?-set_elem_other :
    {A : Type 0} (xs : List A) (i j : ℕ) (a : A)
    → j ≢ i
    → get_elem? (set_elem xs i a) j ≡ get_elem? xs j
get_elem?-set_elem_other [] i j a other = refl
get_elem?-set_elem_other (y ∷ xs) zero zero a other = absurd (other refl)
get_elem?-set_elem_other (y ∷ xs) zero (suc j) a other = refl
get_elem?-set_elem_other (y ∷ xs) (suc i) zero a other = refl
get_elem?-set_elem_other (y ∷ xs) (suc i) (suc j) a other =
    get_elem?-set_elem_other xs i j a λ e. other (ap suc e)

or_raise-ok :
    {S E F A : Type 0} (f : E → F) (m : Exec S E A) (s : S) {a : A} {s' : S}
    → or_raise f m s ≡ (ok a, s')
    → m s ≡ (ok a, s')
or_raise-ok f m s {a} e =
    let o = map_err-ok f (m s).0 (ap (λ r. r.0) e) in
    let t = ap (λ r. r.1) e in ap (λ o. (o, (m s).1)) o ∙ ap (λ t. (ok a, t)) t

err-ne_ok : {E A : Type 0} {x : E} {a : A} → ◌≢◌ {A = Outcome E A} (err x) (ok a)
err-ne_ok e = cc

not-false : (b : Bool) → not b ≡ false → b ≡ true
not-false true e = refl
not-false false e = cc

==_true : (a b : ℕ) → (a == b) ≡ true → a ≡ b
==_true a b e = ground arith

if-at_false :
    {S A : Type 0} (test : Bool) (then_call else_call : Exec S Stopped A) (s : S)
    → test ≡ false
    → (if test then then_call else else_call) s ≡ else_call s
if-at_false true then_call else_call s e = cc
if-at_false false then_call else_call s e = refl

module _ (h : Host) (q : Vring) (U : UsedRing q) (thread : VhostUserFsThread h q) where
  -- The ring behind an event was served once, and the others were left.
  abbrev pub ServedRing : List ℕ → ℕ → q.VringState → Rings h q → Rings h q → Type 0
  ServedRing given event vring s s' =
      (vring' : q.VringState) × (get_elem? s'.vrings event ≡ some vring')
      × (heads (U.used vring') ≡ heads (U.used vring) ++ taken (U.takes vring) given)
      × ((j : ℕ) → j ≢ event → get_elem? s'.vrings j ≡ get_elem? s.vrings j)

  serve_ring-returns :
      (fuel : ℕ) (s : Serving h q) {chains : List q.Chain} {r : Memory × q.VringState}
      {done : Unit {0}} {s' : Serving h q}
      → thread.event_idx ≡ false
      → q.iter (s.world.memory, s.vring) ≡ (ok chains, r)
      → serve_ring h q thread fuel s ≡ (ok done, s')
      → heads (U.used s'.vring)
        ≡ heads (U.used s.vring) ++ taken (U.takes s.vring) (map q.head_index chains)
  unfolding serve_ring pure
  serve_ring-returns fuel s {s' = s'} plain given e =
      let once = sym (if-at_false thread.event_idx (serve_loop h q thread fuel) _ s plain) ∙ e in
      let (used_any, s1, e1, r1) = >>=-inv (process_queue_serial h q thread) _ s once in
      let same : s1 ≡ s' = ap (λ r. r.1) r1 in
      ap (λ t. heads (U.used t.vring)) (sym same)
      ∙ (process_queue-returns h q U thread s given e1).1

  on_vring-at :
      (i : ℕ) (m : Serve h q (Unit {0})) (s : Rings h q) {vring : q.VringState}
      → get_elem? s.vrings i ≡ some vring
      → let r = m (record { world = s.world; vring = vring }) in
        on_vring h q thread i m s
        ≡ (r.0, record { world = r.1.world; vrings = set_elem s.vrings i r.1.vring })
  unfolding on_vring
  on_vring-at i m s has = rw (has, on_vring) refl

  on_vring-returns :
      (i fuel : ℕ) (s : Rings h q) {vring : q.VringState} {chains : List q.Chain}
      {r : Memory × q.VringState} {done : Unit {0}} {s' : Rings h q}
      → thread.event_idx ≡ false
      → get_elem? s.vrings i ≡ some vring
      → q.iter (s.world.memory, vring) ≡ (ok chains, r)
      → on_vring h q thread i (serve_ring h q thread fuel) s ≡ (ok done, s')
      → ServedRing (map q.head_index chains) i vring s s'
  on_vring-returns i fuel s {vring} {done = done} plain has given e =
      let one : Serving h q = record { world = s.world; vring = vring } in
      let served = serve_ring h q thread fuel one in
      let both = sym (on_vring-at i (serve_ring h q thread fuel) s has) ∙ e in
      let returned : served ≡ (ok done, served.1) = ap (λ r. (r.0, served.1)) both in
      subst (ServedRing _ i vring s) (ap (λ r. r.1) both) (
        served.1.vring,
        get_elem?-set_elem s.vrings i served.1.vring vring has,
        serve_ring-returns fuel one plain given returned,
        λ j. get_elem?-set_elem_other s.vrings i j served.1.vring,
      )

  -- An event that succeeds is that of a ring.
  either-ring :
      (first second : Bool) (m0 m1 : Exec (Rings h q) Stopped (Unit {0})) (s : Rings h q)
      {done : Unit {0}} {s' : Rings h q}
      → (if first then m0 else if second then m1 else raise unknown_event) s ≡ (ok done, s')
      → ((first ≡ true) × (m0 s ≡ (ok done, s'))) ⊎ ((second ≡ true) × (m1 s ≡ (ok done, s')))
  unfolding raise
  either-ring true second m0 m1 s e = inl (refl, e)
  either-ring false true m0 m1 s e = inr (refl, e)
  either-ring false false m0 m1 s e = absurd (err-ne_ok (ap (λ r. r.0) e))

  handle_event_serial-returns :
      (fuel event : ℕ) (s : Rings h q) {vring : q.VringState} {chains : List q.Chain}
      {r : Memory × q.VringState} {done : Unit {0}} {s' : Rings h q}
      → thread.event_idx ≡ false
      → get_elem? s.vrings event ≡ some vring
      → q.iter (s.world.memory, vring) ≡ (ok chains, r)
      → handle_event_serial h q thread fuel event s ≡ (ok done, s')
      → (event < 2) × ServedRing (map q.head_index chains) event vring s s'
  unfolding handle_event_serial
  handle_event_serial-returns fuel event s {vring} {chains} {s' = s'} plain has given e =
      let Goal : ℕ → Type 0 = λ i.
        get_elem? s.vrings i ≡ some vring
        → (i < 2) × ServedRing (map q.head_index chains) i vring s s' in
      let first : on_vring h q thread 0 (serve_ring h q thread fuel) s ≡ (ok tt, s') → Goal 0 =
        λ e has. (omega arith, on_vring-returns 0 fuel s plain has given e) in
      let second : on_vring h q thread 1 (serve_ring h q thread fuel) s ≡ (ok tt, s') → Goal 1 =
        λ e has. (omega arith, on_vring-returns 1 fuel s plain has given e) in
      elim (either-ring (event == hiprio_queue_event) (event == req_queue_event) _ _ s e) [
        | inl (test, e0) ↦ subst Goal (sym (==_true event 0 test)) (first e0) has
        | inr (test, e1) ↦ subst Goal (sym (==_true event 1 test)) (second e1) has
      ]

  handle_event_if-returns :
      (test : Bool) (fuel event : ℕ) (s : Rings h q) {done : Unit {0}} {s' : Rings h q}
      → (if test
            then raise (failed (to_io_error no_input_event))
            else or_raise (map_stop to_io_error) (handle_event_serial h q thread fuel event))
          s
        ≡ (ok done, s')
      → (test ≡ false) × (handle_event_serial h q thread fuel event s ≡ (ok done, s'))
  unfolding raise
  handle_event_if-returns true fuel event s e = absurd (err-ne_ok (ap (λ r. r.0) e))
  handle_event_if-returns false fuel event s e =
      (refl, or_raise-ok (map_stop to_io_error) (handle_event_serial h q thread fuel event) s e)

  -- Over a ring that does what it documents, on a thread without event indices, and for an event
  -- that has a ring which gives chains: if handle_event succeeds, then the event is an input event
  -- of the first or the second ring, the heads in the used ring of that ring are those from before
  -- and behind them, in their order, the heads of these chains that the ring takes, and every
  -- other ring is as it was.
  pub handle_event-serves :
      (fuel event evset : ℕ) (s : Rings h q) {vring : q.VringState} {chains : List q.Chain}
      {r : Memory × q.VringState} {done : Unit {0}} {s' : Rings h q}
      → thread.event_idx ≡ false
      → get_elem? s.vrings event ≡ some vring
      → q.iter (s.world.memory, vring) ≡ (ok chains, r)
      → handle_event h q thread fuel event evset s ≡ (ok done, s')
      → (evset ≡ q.event_in) × (event < 2) × ServedRing (map q.head_index chains) event vring s s'
  unfolding handle_event
  handle_event-serves fuel event evset s plain has given e =
      let (input, serial) = handle_event_if-returns (not (evset == q.event_in)) fuel event s e in
      let (known, served) = handle_event_serial-returns fuel event s plain has given serial in
      (==_true evset q.event_in (not-false _ input), known, served)
