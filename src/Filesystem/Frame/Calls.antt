-- ===== src/Filesystem/Frame/Calls.antt =====
-- The addresses to which the replies of src/filesystem.rs write.
use ovfs.Prelude.{ℕ, Option, none, some, List}
use ovfs.Prelude.Outcome.{Outcome, ok, err, panic, hang, Exec}
use ovfs.Prelude.Exec.{unwrap}
use ovfs.Prelude.Exec.Keeps.{Keeps, Keeps-lift, Keeps-pure, Keeps-raise, keeps_rules}
use ovfs.Prelude.Exec.Yields.{
  Yields, Yields-pure, Yields-unwrap, Yields-bind, Yields-if, Keeps-bind_with,
}
use ovfs.Error.{Error, IoError}
use ovfs.Memory.{Memory}
use ovfs.Volatile.{IsVolatile}
use ovfs.Stream.{Reader, Writer, writer_split_at}
use ovfs.Stream.Frame.{Off, Yields-write_all, Good-writer_split_at, Yields-or_raise}
use ovfs.Chain.Frame.{Still}
use ovfs.Message.{InHeader}
use ovfs.Message.Layout.{ByteValued}
use ovfs.Message.Replies.{out_header_byte_valued, dir_entry_out_byte_valued}
use ovfs.Filesystem.State.{Host, Fs, on_memory}
use ovfs.Filesystem.Reply.{
  put, put_some, reply_ok, reply_error, or_reply, answer_or, bytes_of, DirEntry,
  reply_add_dir_entry,
}
use ovfs.Filesystem.Request.{read_obj, read_name, some_name, with_path}
use ovfs.Filesystem.Frame.Steps.{Same, Keeps-from_memory, Keeps-opened_path, Keeps-sub_usize}

module _ (h : Host) (L : IsVolatile h.volatile) (a b : ℕ) where
  -- The writer does not cover the address.
  abbrev pub Clear : Writer h.volatile → Type 0
  Clear w = Off h.volatile L a b w

  pub Yields-on_memory :
      {A : Type 0} (Q : A → Type 0) (m : Exec Memory IoError A)
      → Yields (Still h.volatile L a b) Q m
      → Yields (Same h a b) Q (on_memory h m)
  unfolding on_memory
  Yields-on_memory Q m y = record { at = λ s same. (Yields-or_raise Q _ m y).at s.memory same }

  pub Yields-put :
      (w : Writer h.volatile) (bytes : List ℕ) → Clear w → Yields (Same h a b) Clear (put h w bytes)
  unfolding put
  Yields-put w bytes p = Yields-on_memory Clear _ (Yields-write_all h.volatile L a b w bytes p)

  Yields-put_some :
      (w : Writer h.volatile) (bytes : Option (List ℕ))
      → Clear w
      → Yields (Same h a b) Clear (put_some h w bytes)
  unfolding put_some
  Yields-put_some w none p = Yields-pure w p
  Yields-put_some w (some bytes) p = Yields-put w bytes p

  pub Yields-split :
      (n : ℕ) (w : Writer h.volatile)
      → Clear w
      → Yields
          (Same h a b)
          (λ halves. Clear halves.0 × Clear halves.1)
          (unwrap {E = Error} (writer_split_at h.volatile n w))
  Yields-split n w p = Yields-unwrap _ (Good-writer_split_at h.volatile L a b n w p)

  pub Keeps-reply_error :
      (unique : ℕ) (w : Writer h.volatile) (e : ℕ)
      → Clear w
      → Keeps (Same h a b) (reply_error h unique w e)
  unfolding reply_error
  Keeps-reply_error unique w e p = Keeps-bind_with _ _ (Yields-put w _ p) λ w1 q. Keeps-pure _

  pub Keeps-reply_ok :
      {T : Type 0} ⦃v : ByteValued T⦄ (out : Option T) (body : Option (List ℕ)) (unique : ℕ)
      (w : Writer h.volatile)
      → Clear w
      → Keeps (Same h a b) (reply_ok h out body unique w)
  unfolding reply_ok
  Keeps-reply_ok out body unique w p = Keeps-bind_with _ _ (Yields-put w _ p) λ w1 p1.
      Keeps-bind_with _ _ (Yields-put_some w1 (bytes_of h out) p1)
        λ w2 p2. Keeps-bind_with _ _ (Yields-put_some w2 body p2) λ w3 p3. Keeps-pure _

  pub Yields-reply_add_dir_entry :
      (w : Writer h.volatile) (entry : DirEntry)
      → Clear w
      → Yields (Same h a b) (λ r. Clear r.1) (reply_add_dir_entry h w entry)
  unfolding reply_add_dir_entry
  Yields-reply_add_dir_entry w entry p = Yields-bind _ _ (Yields-put w _ p) λ w1 p1.
      Yields-bind _ _ (Yields-put w1 entry.name p1) λ w2 p2.
        Yields-bind _ _ (Yields-if _ _ _ (Yields-put w2 _ p2) (Yields-pure w2 p2))
          λ w3 p3. Yields-pure _ p3

  Keeps-answer_or :
      {A : Type 0} (unique : ℕ) (w : Writer h.volatile) (error : ℕ) (k : A → Fs h ℕ)
      (o : Outcome Error A)
      → Clear w
      → ((x : A) → Keeps (Same h a b) (k x))
      → Keeps (Same h a b) (answer_or h unique w error k o)
  unfolding answer_or
  Keeps-answer_or unique w error k (ok x) p kk = kk x
  Keeps-answer_or unique w error k (err e) p kk = Keeps-reply_error unique w error p
  Keeps-answer_or unique w error k panic p kk = Keeps-lift panic
  Keeps-answer_or unique w error k hang p kk = Keeps-lift hang

  pub Keeps-or_reply :
      {A : Type 0} (unique : ℕ) (w : Writer h.volatile) (error : ℕ) (m : Fs h A) (k : A → Fs h ℕ)
      → Clear w
      → Keeps (Same h a b) m
      → ((x : A) → Keeps (Same h a b) (k x))
      → Keeps (Same h a b) (or_reply h unique w error m k)
  unfolding or_reply
  Keeps-or_reply unique w error m k p km kk = record {
    at = λ s same. (Keeps-answer_or unique w error k (m s).0 p kk).at (m s).1 (km.at s same);
  }

  pub Keeps-read_obj :
      {T : Type 0} ⦃v : ByteValued T⦄ (r : Reader h.volatile)
      → Keeps (Same h a b) (read_obj h {T = T} r)
  unfolding read_obj
  Keeps-read_obj ⦃v⦄ r = search (keeps_rules, Keeps-from_memory h a b)

  Keeps-read_name :
      (in_header : InHeader) (fixed : ℕ) (r : Reader h.volatile)
      → Keeps (Same h a b) (read_name h in_header fixed r)
  unfolding read_name
  Keeps-read_name in_header fixed r =
      search (keeps_rules, Keeps-from_memory h a b, Keeps-sub_usize h a b)

  Keeps-some_name : (name : Option (List ℕ)) → Keeps (Same h a b) (some_name h name)
  unfolding some_name
  Keeps-some_name none = Keeps-raise _
  Keeps-some_name (some name) = Keeps-pure name

  pub Keeps-with_path :
      (in_header : InHeader) (fixed : ℕ) (r : Reader h.volatile) (w : Writer h.volatile)
      (k : List ℕ → Fs h ℕ)
      → Clear w
      → ((path : List ℕ) → Keeps (Same h a b) (k path))
      → Keeps (Same h a b) (with_path h in_header fixed r w k)
  unfolding with_path
  Keeps-with_path in_header fixed r w k p kk = search (
    keeps_rules,
    Keeps-or_reply,
    p,
    Keeps-read_name,
    Keeps-some_name,
    Keeps-opened_path h a b,
    kk,
  )
