-- ===== src/Filesystem/Ends/Calls.antt =====
-- Termination of the replies of src/filesystem.rs and of what its handlers share.
use ovfs.Prelude.{
  ℕ, ◌≢◌, refl, Bool, Option, none, some, List, Option-cases, Bool-cases, inl, inr, ltb,
}
use ovfs.Prelude.Outcome.{Outcome, ok, err, panic, hang, Exec}
use ovfs.Prelude.Exec.Ends.{
  Ends, Ends-bind, Ends-lift, Ends-pure, Ends-raise, Ends-ok_or, ends-map_err, ends_rules,
}
use ovfs.Error.{Error, ErrorKind, IoError}
use ovfs.Memory.{Memory}
use ovfs.Stream.{IoResult, Reader, Writer, write_all, read_exact}
use ovfs.Stream.Ends.{Ends-or_raise, ends-read_exact, Ends-write_all}
use ovfs.Message.{InHeader}
use ovfs.Message.Layout.{ByteValued}
use ovfs.Filesystem.Host.{Operator}
use ovfs.Filesystem.State.{
  OpenedFile, Host, Fs, on_memory, from_memory, on_storage, allocate, map_path, unmap_path,
  opened_path, sub_usize,
}
use ovfs.Filesystem.Reply.{
  put, put_some, reply_ok, reply_error, or_reply, answer_or, DirEntry, reply_add_dir_entry,
}
use ovfs.Filesystem.Request.{read_obj, read_name, some_name, with_path}

-- No call of the storage loops for ever.
pub record OperatorEnds (core : Operator) : Type 0 where
  pub stat : (path : List ℕ) → Ends (core.stat path)
  pub delete : (path : List ℕ) → Ends (core.delete path)
  pub writer_with : (path : List ℕ) (append : Bool) → Ends (core.writer_with path append)
  pub write_from : (bytes : List ℕ) → Ends (core.write_from bytes)
  pub close : Ends core.close
  pub read_with : (path : List ℕ) (offset : ℕ) → Ends (core.read_with path offset)
  pub create_dir : (path : List ℕ) → Ends (core.create_dir path)
  pub list : (path : List ℕ) → Ends (core.list path)

module _ (h : Host) where
  pub Ends-on_memory : {A : Type 0} (m : Exec Memory IoError A) → Ends m → Ends (on_memory h m)
  unfolding on_memory
  Ends-on_memory m e = record { at = λ s. (Ends-or_raise _ m e).at s.memory }

  pub Ends-from_memory :
      {A : Type 0} (m : Memory → IoResult A)
      → ((mem : Memory) → m mem ≢ hang)
      → Ends (from_memory h m)
  unfolding from_memory
  Ends-from_memory m e = record { at = λ s. ends-map_err _ (m s.memory) (e s.memory) }

  pub Ends-on_storage :
      {A : Type 0} (m : Exec h.core.State ErrorKind A) → Ends m → Ends (on_storage h m)
  unfolding on_storage
  Ends-on_storage m e = record { at = λ s. ends-map_err _ (m s.storage).0 (e.at s.storage) }

  pub Ends-allocate : (f : OpenedFile) → Ends (allocate h f)
  unfolding allocate
  Ends-allocate f = record {
    at = λ s. elim (Option-cases (h.slab.insert s.opened_files f)) [
      | inl e ↦ rw (e, allocate) (λ p. cc)
      | inr (new, e) ↦ rw (e, allocate) (λ p. cc)
    ];
  }

  pub Ends-map_path : (path : List ℕ) (inode : ℕ) → Ends (map_path h path inode)
  unfolding map_path
  Ends-map_path path inode = record { at = λ s e. cc }

  pub Ends-unmap_path : (path : List ℕ) → Ends (unmap_path h path)
  unfolding unmap_path
  Ends-unmap_path path = record { at = λ s e. cc }

  pub Ends-opened_path : (inode : ℕ) → Ends (opened_path h inode)
  unfolding opened_path
  Ends-opened_path inode = record {
    at = λ s. elim (Option-cases (h.slab.get s.opened_files inode)) [
      | inl e ↦ rw (e, opened_path) (λ p. cc)
      | inr (f, e) ↦ rw (e, opened_path) (λ p. cc)
    ];
  }

  Ends-sub_usize : (a b : ℕ) → Ends (sub_usize h a b)
  unfolding sub_usize
  Ends-sub_usize a b = record {
    at = λ s. elim (Bool-cases (ltb a b)) [ inl e ↦ rw e (λ p. cc) | inr e ↦ rw e (λ p. cc) ];
  }

  pub Ends-put : (w : Writer h.volatile) (bytes : List ℕ) → Ends (put h w bytes)
  unfolding put
  Ends-put w bytes =
      Ends-on_memory (write_all h.volatile w bytes) (Ends-write_all h.volatile w bytes)

  Ends-put_some : (w : Writer h.volatile) (bytes : Option (List ℕ)) → Ends (put_some h w bytes)
  unfolding put_some
  Ends-put_some w none = Ends-pure w
  Ends-put_some w (some bytes) = Ends-put w bytes

  pub Ends-reply_error :
      (unique : ℕ) (w : Writer h.volatile) (e : ℕ) → Ends (reply_error h unique w e)
  unfolding reply_error
  Ends-reply_error unique w e = search (ends_rules, Ends-put)

  pub Ends-reply_ok :
      {T : Type 0} ⦃b : ByteValued T⦄ (out : Option T) (body : Option (List ℕ)) (unique : ℕ)
      (w : Writer h.volatile)
      → Ends (reply_ok h out body unique w)
  unfolding reply_ok
  Ends-reply_ok out body unique w = search (ends_rules, Ends-put, Ends-put_some)

  pub Ends-reply_add_dir_entry :
      (w : Writer h.volatile) (entry : DirEntry) → Ends (reply_add_dir_entry h w entry)
  unfolding reply_add_dir_entry
  Ends-reply_add_dir_entry w entry = search (ends_rules, Ends-put) depth 10

  Ends-answer_or :
      {A : Type 0} (unique : ℕ) (w : Writer h.volatile) (error : ℕ) (k : A → Fs h ℕ)
      (o : Outcome Error A)
      → o ≢ hang
      → ((a : A) → Ends (k a))
      → Ends (answer_or h unique w error k o)
  unfolding answer_or
  Ends-answer_or unique w error k (ok a) e kk = kk a
  Ends-answer_or unique w error k (err x) e kk = Ends-reply_error unique w error
  Ends-answer_or unique w error k panic e kk = Ends-lift panic (λ p. cc)
  Ends-answer_or unique w error k hang e kk = absurd (e refl)

  pub Ends-or_reply :
      {A : Type 0} (unique : ℕ) (w : Writer h.volatile) (error : ℕ) (m : Fs h A) (k : A → Fs h ℕ)
      → Ends m
      → ((a : A) → Ends (k a))
      → Ends (or_reply h unique w error m k)
  unfolding or_reply
  Ends-or_reply unique w error m k em ek = record {
    at = λ s. (Ends-answer_or unique w error k (m s).0 (em.at s) ek).at (m s).1;
  }

  pub Ends-read_obj :
      {T : Type 0} ⦃b : ByteValued T⦄ (r : Reader h.volatile) → Ends (read_obj h {T = T} r)
  unfolding read_obj
  Ends-read_obj ⦃b⦄ r =
      Ends-bind _ _
        (Ends-from_memory (λ mem. read_exact h.volatile mem r b.size_of)
          (λ mem. ends-read_exact h.volatile mem r b.size_of))
        λ p. Ends-pure _

  Ends-read_name :
      (in_header : InHeader) (fixed : ℕ) (r : Reader h.volatile)
      → Ends (read_name h in_header fixed r)
  unfolding read_name
  Ends-read_name in_header fixed r = Ends-bind _ _ (Ends-sub_usize in_header.len fixed) λ n.
      Ends-bind _ _
        (Ends-from_memory (λ mem. read_exact h.volatile mem r n)
          (λ mem. ends-read_exact h.volatile mem r n))
        λ p. Ends-pure _

  Ends-some_name : (name : Option (List ℕ)) → Ends (some_name h name)
  unfolding some_name
  Ends-some_name none = Ends-raise _
  Ends-some_name (some name) = Ends-pure name

  pub Ends-with_path :
      (in_header : InHeader) (fixed : ℕ) (r : Reader h.volatile) (w : Writer h.volatile)
      (k : List ℕ → Fs h ℕ)
      → ((path : List ℕ) → Ends (k path))
      → Ends (with_path h in_header fixed r w k)
  unfolding with_path
  Ends-with_path in_header fixed r w k ek =
      search (ends_rules, Ends-or_reply, Ends-read_name, Ends-some_name, Ends-opened_path, ek)

pub ruleset answer_rules =
    (ends_rules, Ends-or_reply, Ends-opened_path, Ends-reply_ok, Ends-reply_error, Ends-read_obj)
