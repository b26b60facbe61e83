-- ===== src/Filesystem/Table/Steps.antt =====
-- The single steps of the handlers on the two tables.
use ovfs.Prelude.{ℕ, ◌≡◌, refl, List}
use ovfs.Prelude.{Option-cases, inl, inr, Bool-cases, ltb}
use ovfs.Prelude.Outcome.{Outcome, Exec, ok, err, panic, hang}
use ovfs.Prelude.Exec.{◌>>=◌}
use ovfs.Prelude.Exec.Keeps.{Keeps, Keeps-lift}
use ovfs.Prelude.Dict.{Dict, lookup}
use ovfs.Error.{Error, IoError, ErrorKind}
use ovfs.Memory.{Memory}
use ovfs.Stream.{IoResult, Writer}
use ovfs.Filesystem.State.{
  FileType, dir, file, opened_file, Host, InnerWriter, World, Fs, on_memory, from_memory,
  on_storage, opened_path, sub_usize,
}
use ovfs.Filesystem.Reply.{reply_error, or_reply, answer_or}
use ovfs.Filesystem.Operations.{put_writer, writer_of, on_writer, drop_writer}

pub path-opened_file : (t : FileType) (path : List ℕ) → (opened_file t path).path ≡ path
unfolding opened_file
path-opened_file dir path = refl
path-opened_file file path = refl

module _ (h : Host) where
  -- A predicate on the two tables alone is kept by every step that leaves them.
  module _ (P : h.slab.Slots → Dict ℕ → Type 0) where
    abbrev pub On : World h → Type 0
    On s = P s.opened_files s.opened_files_map

    pub Keeps-on_memory : {A : Type 0} (m : Exec Memory IoError A) → Keeps On (on_memory h m)
    unfolding on_memory
    Keeps-on_memory m = record { at = λ s p. p }

    pub Keeps-from_memory : {A : Type 0} (m : Memory → IoResult A) → Keeps On (from_memory h m)
    unfolding from_memory
    Keeps-from_memory m = record { at = λ s p. p }

    pub Keeps-on_storage :
        {A : Type 0} (m : Exec h.core.State ErrorKind A) → Keeps On (on_storage h m)
    unfolding on_storage
    Keeps-on_storage m = record { at = λ s p. p }

    pub Keeps-opened_path : (inode : ℕ) → Keeps On (opened_path h inode)
    unfolding opened_path
    Keeps-opened_path inode = record {
      at = λ s p. elim (Option-cases (h.slab.get s.opened_files inode)) [
        | inl none_there ↦ rw (none_there, opened_path) p
        | inr (f, there) ↦ rw (there, opened_path) p
      ];
    }

    pub Keeps-sub_usize : (a b : ℕ) → Keeps On (sub_usize h a b)
    unfolding sub_usize
    Keeps-sub_usize a b = record {
      at = λ s p. elim (Bool-cases (ltb a b)) [ inl e ↦ rw e p | inr e ↦ rw e p ];
    }

    pub Keeps-put_writer : (path : List ℕ) (w : InnerWriter h) → Keeps On (put_writer h path w)
    unfolding put_writer
    Keeps-put_writer path w = record { at = λ s p. p }

    pub Keeps-writer_of : (path : List ℕ) → Keeps On (writer_of h path)
    unfolding writer_of ◌>>=◌
    Keeps-writer_of path = record {
      at = λ s p. elim (Option-cases (lookup path s.opened_files_writer)) [
        | inl e ↦ rw e p
        | inr (w, e) ↦ rw e p
      ];
    }

    pub Keeps-on_writer :
        (path : List ℕ) (w : InnerWriter h)
        (m : Exec (h.core.Writer × h.core.State) ErrorKind (Unit {0}))
        → Keeps On (on_writer h path w m)
    unfolding on_writer
    Keeps-on_writer path w m = record { at = λ s p. p }

    pub Keeps-drop_writer : (path : List ℕ) → Keeps On (drop_writer h path)
    unfolding drop_writer
    Keeps-drop_writer path = record { at = λ s p. p }

    pub Keeps-answer_or :
        {A : Type 0} (unique : ℕ) (w : Writer h.volatile) (error : ℕ) (k : A → Fs h ℕ)
        (o : Outcome Error A)
        → Keeps On (reply_error h unique w error)
        → ((a : A) → Keeps On (k a))
        → Keeps On (answer_or h unique w error k o)
    unfolding answer_or
    Keeps-answer_or unique w error k (ok a) r kk = kk a
    Keeps-answer_or unique w error k (err e) r kk = r
    Keeps-answer_or unique w error k panic r kk = Keeps-lift panic
    Keeps-answer_or unique w error k hang r kk = Keeps-lift hang

    pub Keeps-or_reply :
        {A : Type 0} (unique : ℕ) (w : Writer h.volatile) (error : ℕ) (m : Fs h A) (k : A → Fs h ℕ)
        → Keeps On (reply_error h unique w error)
        → Keeps On m
        → ((a : A) → Keeps On (k a))
        → Keeps On (or_reply h unique w error m k)
    unfolding or_reply
    Keeps-or_reply unique w error m k r km kk = record {
      at = λ s p. (Keeps-answer_or unique w error k (m s).0 r kk).at (m s).1 (km.at s p);
    }
