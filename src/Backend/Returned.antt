-- ===== src/Backend/Returned.antt =====
-- The chains that `process_queue_serial` of src/main.rs puts into the used ring.
use ovfs.Prelude.{
  ℕ, ◌≡◌, refl, sym, ap, ◌∙◌, Bool, true, false, Option, none, some, List, [], ◌∷◌, ◌++◌, map,
  append-nil, append_assoc,
}
use ovfs.Prelude.Outcome.{Outcome, ok, map_err}
use ovfs.Prelude.Exec.{pure, raise, lift, >>=-inv, >>=-at_ok}
use ovfs.Prelude.Exec.Keeps.{Keeps, keeps_rules}
use ovfs.Memory.{Memory}
use ovfs.Stream.{Reader, Writer}
use ovfs.Stream.Open.{GuestMemory}
use ovfs.Filesystem.State.{Host}
use ovfs.Backend.Vring.{Vring, UsedRing}
use ovfs.Backend.Device.{
  VhostUserFsThread, Serving, Stopped, Serve, on_ring, ring_of, with_ring, unwrapped, logged,
}
use ovfs.Backend.Queue.{
  used_len_of, notified, signal, notify, return_descriptor, chain_reader, chain_writer,
  serve_message, serve_chain, serve_chains, process_queue_with, process_queue_serial, no_iteration,
}
use ovfs.Backend.Kept.{Keeps-on_ring}
use mathlib.Core.List.{map-append}
use mathlib.Core.Path.{subst}

abbrev pub heads : List (ℕ × ℕ) → List ℕ
heads = map (λ p. p.0)

-- Whether a list has an element.
abbrev pub some_chain {ℓ} : {A : Type ℓ} → Bool → List A → Bool
some_chain b [] = b
some_chain b (x ∷ xs) = true

some_chain-true : {A : Type 0} (xs : List A) → some_chain true xs ≡ true
some_chain-true [] = refl
some_chain-true (x ∷ xs) = refl

ok-inj : {E A : Type 0} {a b : A} → ◌≡◌ {A = Outcome E A} (ok a) (ok b) → a ≡ b
ok-inj e = cc

-- The heads that a ring takes, in their order; the others are lost.
abbrev pub taken_if : Bool → ℕ → List ℕ
taken_if true head = head ∷ []
taken_if false head = []

abbrev pub taken : (ℕ → Bool) → List ℕ → List ℕ
taken takes [] = []
taken takes (head ∷ rest) = taken_if (takes head) head ++ taken takes rest

module _ (h : Host) (q : Vring) (U : UsedRing q) (t : ℕ → Bool) where
  -- What the ring was given, and which heads it takes.
  abbrev UsedIs : List (ℕ × ℕ) → Serving h q → Type 0
  UsedIs u s = (U.used s.vring ≡ u) × ((n : ℕ) → U.takes s.vring n ≡ t n)

  abbrev Takes : Serving h q → Type 0
  Takes s = (n : ℕ) → U.takes s.vring n ≡ t n

  -- A call that keeps the ring, however it ends.
  kept :
      {A : Type 0} (u : List (ℕ × ℕ)) (m : Serve h q A) (s : Serving h q) {o : Outcome Stopped A}
      {s' : Serving h q}
      → Keeps (UsedIs u) m
      → m s ≡ (o, s')
      → UsedIs u s
      → UsedIs u s'
  kept u m s k e inv = subst (λ s. UsedIs u s) (ap (λ r. r.1) e) (k.at s inv)

  module _ (u : List (ℕ × ℕ)) where
    Keeps-signal : Keeps (UsedIs u) (signal h q)
    unfolding signal
    Keeps-signal = Keeps-on_ring h q (UsedIs u) q.signal_used_queue unwrapped λ s inv.
        (U.used-signal (ring_of h q s) ∙ inv.0, λ n. U.takes-signal (ring_of h q s) n ∙ inv.1 n)

    Keeps-needs : Keeps (UsedIs u) (on_ring h q q.needs_notification notified)
    Keeps-needs = Keeps-on_ring h q (UsedIs u) q.needs_notification notified λ s inv.
        (U.used-needs (ring_of h q s) ∙ inv.0, λ n. U.takes-needs (ring_of h q s) n ∙ inv.1 n)

    Keeps-notify : (event_idx : Bool) → Keeps (UsedIs u) (notify h q event_idx)
    unfolding notify
    Keeps-notify true = search (keeps_rules, Keeps-needs, Keeps-signal)
    Keeps-notify false = Keeps-signal

    Keeps-iter : Keeps (UsedIs u) (on_ring h q q.iter (map_err no_iteration))
    Keeps-iter = Keeps-on_ring h q (UsedIs u) q.iter (map_err no_iteration) λ s inv.
        (U.used-iter (ring_of h q s) ∙ inv.0, λ n. U.takes-iter (ring_of h q s) n ∙ inv.1 n)

    Keeps-serve_message :
        (r : Reader h.volatile) (w : Writer h.volatile) → Keeps (UsedIs u) (serve_message h q r w)
    unfolding serve_message
    Keeps-serve_message r w = record { at = λ s e. e }

    Keeps-chain_reader :
        (mem : GuestMemory h.volatile) (chain : q.Chain)
        → Keeps (UsedIs u) (chain_reader h q mem chain)
    unfolding chain_reader
    Keeps-chain_reader mem chain = record { at = λ s e. e }

    Keeps-chain_writer :
        (mem : GuestMemory h.volatile) (chain : q.Chain)
        → Keeps (UsedIs u) (chain_writer h q mem chain)
    unfolding chain_writer
    Keeps-chain_writer mem chain = record { at = λ s e. e }

    Keeps-used_len : (len : ℕ) → Keeps (UsedIs u) (lift (used_len_of len))
    unfolding lift
    Keeps-used_len len = record { at = λ s e. e }

  -- `add_used`, whether the ring takes the head or not.
  used-add_used :
      (head len : ℕ) (s : Memory × q.VringState) (b : Bool)
      → U.takes s.1 head ≡ b
      → heads (U.used (q.add_used head len s).1.1) ≡ heads (U.used s.1) ++ taken_if b head
  used-add_used head len s true takes =
      let (s', e, same) = U.add_used-taken head len s takes in
      ap (λ r. heads (U.used r.1.1)) e
      ∙ ap heads same
      ∙ map-append (λ p. p.0) (U.used s.1) ((head, len) ∷ [])
  used-add_used head len s false takes =
      let (x, s', e, same) = U.add_used-refused head len s takes in
      ap (λ r. heads (U.used r.1.1)) e ∙ ap heads same ∙ sym (append-nil _)

  -- The used heads after a call, behind those from before.
  abbrev Behind : Serving h q → List ℕ → Serving h q → Type 0
  Behind s new s' = (heads (U.used s'.vring) ≡ heads (U.used s.vring) ++ new) × Takes s'

  add_used-returns :
      (head len : ℕ) (s : Serving h q) {o : Outcome Stopped (Unit {0})} {s' : Serving h q}
      → Takes s
      → on_ring h q (q.add_used head len) logged s ≡ (o, s')
      → Behind s (taken_if (t head) head) s'
  unfolding on_ring
  add_used-returns head len s takes e =
      subst (λ s'. Behind s (taken_if (t head) head) s') (ap (λ r. r.1) e)
        (
          used-add_used head len (ring_of h q s) (t head) (takes head),
          λ n. U.takes-add_used head len (ring_of h q s) n ∙ takes n,
        )

  return_descriptor-returns :
      (head : ℕ) (event_idx : Bool) (len : ℕ) (s : Serving h q) {done : Unit {0}} {s' : Serving h q}
      → Takes s
      → return_descriptor h q head event_idx len s ≡ (ok done, s')
      → Behind s (taken_if (t head) head) s'
  unfolding return_descriptor
  return_descriptor-returns head event_idx len s takes e =
      let u = U.used s.vring in
      let (used_len, s1, e1, r1) = >>=-inv (lift (used_len_of len)) _ s e in
      let (added, s2, e2, r2) = >>=-inv (on_ring h q (q.add_used head used_len) logged) _ s1 r1 in
      let (used1, takes1) = kept u _ s (Keeps-used_len u len) e1 (refl, takes) in
      let (used2, takes2) = add_used-returns head used_len s1 takes1 e2 in
      let (used3, takes3) =
        kept _ (notify h q event_idx) s2 (Keeps-notify _ event_idx) r2 (refl, takes2) in
      (ap heads used3 ∙ used2 ∙ ap (λ u. heads u ++ taken_if (t head) head) used1, takes3)

  serve_chain-returns :
      (mem : GuestMemory h.volatile) (event_idx : Bool) (chain : q.Chain) (s : Serving h q)
      {done : Unit {0}} {s' : Serving h q}
      → Takes s
      → serve_chain h q mem event_idx chain s ≡ (ok done, s')
      → Behind s (taken_if (t (q.head_index chain)) (q.head_index chain)) s'
  unfolding serve_chain
  serve_chain-returns mem event_idx chain s takes e =
      let u = U.used s.vring in
      let head = q.head_index chain in
      let (reader, s1, e1, r1) = >>=-inv (chain_reader h q mem chain) _ s e in
      let (writer, s2, e2, r2) = >>=-inv (chain_writer h q mem chain) _ s1 r1 in
      let (len, s3, e3, r3) = >>=-inv (serve_message h q reader writer) _ s2 r2 in
      let (used3, takes3) = kept u _ s2 (Keeps-serve_message u reader writer) e3 (
        kept u _ s1 (Keeps-chain_writer u mem chain) e2
          (kept u _ s (Keeps-chain_reader u mem chain) e1 (refl, takes))) in
      let (used4, takes4) = return_descriptor-returns head event_idx len s3 takes3 r3 in
      (used4 ∙ ap (λ u. heads u ++ taken_if (t head) head) used3, takes4)

  serve_chains-returns :
      (mem : GuestMemory h.volatile) (event_idx used_any : Bool) (chains : List q.Chain)
      (s : Serving h q) {b : Bool} {s' : Serving h q}
      → Takes s
      → serve_chains h q mem event_idx used_any chains s ≡ (ok b, s')
      → (b ≡ some_chain used_any chains)
        × (heads (U.used s'.vring) ≡ heads (U.used s.vring) ++ taken t (map q.head_index chains))
  unfolding serve_chains pure
  serve_chains-returns mem event_idx used_any [] s takes e = (
    sym (ok-inj (ap (λ r. r.0) e)),
    sym (ap (λ r. heads (U.used r.1.vring)) e) ∙ sym (append-nil _),
  )
  serve_chains-returns mem event_idx used_any (chain ∷ chains) s takes e =
      let heads1 = taken_if (t (q.head_index chain)) (q.head_index chain) in
      let rest = taken t (map q.head_index chains) in
      let (done, s1, e1, r1) = >>=-inv (serve_chain h q mem event_idx chain) _ s e in
      let (used1, takes1) = serve_chain-returns mem event_idx chain s takes e1 in
      let (answer, used2) = serve_chains-returns mem event_idx true chains s1 takes1 r1 in
      (
        answer ∙ some_chain-true chains,
        used2 ∙ ap (λ u. u ++ rest) used1 ∙ append_assoc _ heads1 rest,
      )

  -- The chains that the ring gave for the round.
  process_queue_with-returns :
      (mem : Option (GuestMemory h.volatile)) (event_idx : Bool) (s : Serving h q)
      {chains : List q.Chain} {r : Memory × q.VringState} {b : Bool} {s' : Serving h q}
      → Takes s
      → q.iter (ring_of h q s) ≡ (ok chains, r)
      → process_queue_with h q mem event_idx s ≡ (ok b, s')
      → (b ≡ some_chain false chains)
        × (heads (U.used s'.vring) ≡ heads (U.used s.vring) ++ taken t (map q.head_index chains))
  unfolding process_queue_with raise on_ring
  process_queue_with-returns none event_idx s takes given e = cc
  process_queue_with-returns (some mem) event_idx s {chains} {r} takes given e =
      let got = ap (λ x. (map_err no_iteration x.0, with_ring h q s x.1)) given in
      let (used1, takes1) = kept (U.used s.vring) _ s (Keeps-iter _) got (refl, takes) in
      let (answer, rest) =
        serve_chains-returns mem event_idx false chains (with_ring h q s r) takes1
          (sym (>>=-at_ok (on_ring h q q.iter (map_err no_iteration)) _ s got) ∙ e) in
      (answer, rest ∙ ap (λ u. heads u ++ taken t (map q.head_index chains)) used1)

module _ (h : Host) (q : Vring) (U : UsedRing q) where
  -- Over a ring that does what it documents: if the ring gives chains for a round, and
  -- process_queue_serial returns a value, then the heads in the used ring are those from before
  -- and behind them, in their order, the heads of these chains that the ring takes, while those
  -- that it refuses are lost, and the value is true if and only if there was a chain.
  pub process_queue-returns :
      (thread : VhostUserFsThread h q) (s : Serving h q) {chains : List q.Chain}
      {r : Memory × q.VringState} {b : Bool} {s' : Serving h q}
      → q.iter (ring_of h q s) ≡ (ok chains, r)
      → process_queue_serial h q thread s ≡ (ok b, s')
      → (b ≡ some_chain false chains)
        × (heads (U.used s'.vring)
            ≡ heads (U.used s.vring) ++ taken (U.takes s.vring) (map q.head_index chains))
  unfolding process_queue_serial
  process_queue-returns thread s given e =
      process_queue_with-returns h q U (U.takes s.vring) thread.mem thread.event_idx s (λ n. refl)
        given e
