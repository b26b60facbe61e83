-- ===== src/Filesystem/Append.antt =====
-- Sequences of calls of `do_write` of src/filesystem.rs on one path, and an abstract file.
use ovfs.Prelude.{
  ℕ, ◌+◌, ◌<◌, ◌≤◌, ◌≡◌, ◌≢◌, ◌%◌, ◌^◌, refl, sym, ap, ap₂, ◌∙◌, inl, inr, arith, Option, none,
  some, true, false, Bool-cases,
}
use ovfs.Prelude.{List, [], ◌∷◌, ◌++◌, length, length-append, ◌==◌, if◌then◌else◌}
use ovfs.Prelude.Outcome.{Outcome, ok, err, panic, hang}
use ovfs.Prelude.Dict.{lookup}
use ovfs.Filesystem.Host.{Operator}
use ovfs.Filesystem.State.{Host, InnerWriter, World}
use ovfs.Filesystem.Operations.{do_write}
use ovfs.Filesystem.Order.{do_write_lem, do_write-refused}

-- The abstract file: its content, and an answer for each write.
abbrev pub append_at : ℕ → List ℕ → List ℕ → Option ℕ × List ℕ
append_at offset bytes content =
    if offset == length content then (some (length bytes), content ++ bytes) else (none, content)

unfoldable pub append_all : List (ℕ × List ℕ) → List ℕ → List (Option ℕ) × List ℕ
append_all [] content = ([], content)
append_all ((offset, bytes) ∷ writes) content =
    let step = append_at offset bytes content in
    let rest = append_all writes step.1 in (step.0 ∷ rest.0, rest.1)

-- The bytes of a sequence of writes.
abbrev pub bytes_in : List (ℕ × List ℕ) → ℕ
bytes_in [] = 0
bytes_in ((offset, bytes) ∷ writes) = length bytes + bytes_in writes

-- What the storage documents of a write that succeeds: its bytes are behind those before. Of a write
-- that fails, nothing is said.
pub record Appends (core : Operator) : Type 0 where
  pub content : core.Writer × core.State → List ℕ
  pub content-write_from :
      (bytes : List ℕ) (r : core.Writer × core.State) {r' : core.Writer × core.State}
      → core.write_from bytes r ≡ (ok tt, r')
      → content r' ≡ content r ++ bytes

-- The answer that a client sees.
abbrev pub accepted {ℓ} : {E A : Type ℓ} → Outcome E A → Option A
accepted (ok a) = some a
accepted (err e) = none
accepted panic = none
accepted hang = none

==-true : (a b : ℕ) → (a == b) ≡ true → a ≡ b
==-true a b e = ground arith

==-false : (a b : ℕ) → (a == b) ≡ false → a ≢ b
==-false a b e = ground arith

module _ (h : Host) where
  -- The writes of a client, one after the other.
  unfoldable pub do_writes : List ℕ → List (ℕ × List ℕ) → World h → List (Option ℕ) × World h
  unfolding do_write
  do_writes path [] s = ([], s)
  do_writes path ((offset, bytes) ∷ writes) s =
      let step = do_write h path offset bytes s in
      let rest = do_writes path writes step.1 in (accepted step.0 ∷ rest.0, rest.1)

  -- The write that `do_write` asks of the storage, if it asks for one, succeeds.
  abbrev pub Stored : List ℕ → ℕ → List ℕ → World h → Type 0
  Stored path offset bytes s =
      (w : InnerWriter h)
      → lookup path s.opened_files_writer ≡ some w
      → offset ≡ w.written
      → (h.core.write_from bytes (w.writer, s.storage)).0 ≡ ok tt

  -- So do all that a sequence of writes asks for, each in the state that it comes to.
  abbrev pub AllStored : List ℕ → List (ℕ × List ℕ) → World h → Type 0
  AllStored path [] s = Unit
  AllStored path ((offset, bytes) ∷ writes) s =
      Stored path offset bytes s × AllStored path writes (do_write h path offset bytes s).1

  module _ (A : Appends h.core) where
    -- The writer of `path` stands for a file with this content.
    pub record Represents (path content : List ℕ) (s : World h) : Type 0 where
      pub inner : InnerWriter h
      pub opened : lookup path s.opened_files_writer ≡ some inner
      pub holds : A.content (inner.writer, s.storage) ≡ content
      pub reached : inner.written ≡ length content

    do_write-refines :
        (path : List ℕ) (offset : ℕ) (bytes content : List ℕ) (s : World h)
        → Represents path content s
        → length content + length bytes < 2 ^ 64
        → Stored path offset bytes s
        → (accepted (do_write h path offset bytes s).0 ≡ (append_at offset bytes content).0)
          × Represents path (append_at offset bytes content).1 (do_write h path offset bytes s).1
    do_write-refines path offset bytes content s R fits stored_it =
        elim (Bool-cases (offset == length content)) [
          | inl e ↦
              let at : offset ≡ R.inner.written =
                ==-true offset (length content) e ∙ sym R.reached in
              let r' = (h.core.write_from bytes (R.inner.writer, s.storage)).1 in
              let done = ap (λ o. (o, r')) (stored_it R.inner R.opened at) in
              let holds = A.content-write_from bytes (R.inner.writer, s.storage) done in
              let (s', run, opened, stored) =
                do_write_lem h path bytes s {w = R.inner} R.opened done in
              rw (e, at, run)
                (
                  refl,
                  record {
                    inner = record {
                      writer = r'.0;
                      written = (R.inner.written + length bytes) % 2 ^ 64;
                    };
                    opened = opened;
                    holds =
                        ap (λ st. A.content (r'.0, st)) stored
                        ∙ holds
                        ∙ ap (λ c. c ++ bytes) R.holds;
                    reached = omega (arith, R.reached, length-append content bytes);
                  },
                )
          | inr e ↦
              let ne : offset ≢ R.inner.written =
                λ same. ==-false offset (length content) e (same ∙ R.reached) in
              rw (e, do_write-refused h path offset bytes s (inr (R.inner, R.opened, ne))) (refl, R)
        ]

    length-append_at :
        (offset : ℕ) (bytes content : List ℕ)
        → length (append_at offset bytes content).1 ≤ length content + length bytes
    length-append_at offset bytes content = elim (Bool-cases (offset == length content)) [
      | inl e ↦ rw e (omega (arith, length-append content bytes))
      | inr e ↦ rw e (omega arith)
    ]

    -- Over a storage whose writers, where they succeed, put all bytes behind those they were
    -- given: if the writer of a path stands for a file with some content, the content and all the
    -- bytes of a sequence of writes are fewer than 2 ^ 64 together, and each write that the run
    -- asks of the storage succeeds, then each do_write of the sequence succeeds exactly if an
    -- abstract file with that content, which takes a write at its end only, takes it, with the
    -- same number of bytes, and the writer then stands for the content of the abstract file.
    pub do_writes-refines :
        (path : List ℕ) (writes : List (ℕ × List ℕ)) (content : List ℕ) (s : World h)
        → Represents path content s
        → length content + bytes_in writes < 2 ^ 64
        → AllStored path writes s
        → ((do_writes path writes s).0 ≡ (append_all writes content).0)
          × Represents path (append_all writes content).1 (do_writes path writes s).1
    unfolding do_writes append_all
    do_writes-refines path [] content s R fits all = (refl, R)
    do_writes-refines path ((offset, bytes) ∷ writes) content s R fits (now, later) =
        let (answer, R1) = do_write-refines path offset bytes content s R (omega arith) now in
        let (answers, R2) =
          do_writes-refines path writes (append_at offset bytes content).1
            (do_write h path offset bytes s).1 R1
            (omega (arith, length-append_at offset bytes content)) later in
        (ap₂ (λ a l. a ∷ l) answer answers, R2)
