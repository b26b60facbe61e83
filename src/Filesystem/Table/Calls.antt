-- ===== src/Filesystem/Table/Calls.antt =====
-- The calls that the handlers share, on the two tables.
use ovfs.Prelude.{ℕ, ◌≡◌, ◌+◌, Bool, true, false, Option, none, some, List, [], ◌∷◌}
use ovfs.Prelude.Exec.{◌>>=◌, ◌>>◌}
use ovfs.Prelude.Exec.Keeps.{
  Keeps, Keeps-bind, Keeps-lift, Keeps-pure, Keeps-raise, Keeps-if, Keeps-unwrap, keeps_rules,
}
use ovfs.Prelude.Dict.{Dict}
use ovfs.Stream.{Reader, Writer, write_all}
use ovfs.Filesystem.Host.{Entry}
use ovfs.Message.{InHeader}
use ovfs.Message.Layout.{ByteValued}
use ovfs.Filesystem.State.{OpenedFile, Host, Fs, allocate, map_path, unmap_path}
use ovfs.Filesystem.Reply.{put, put_some, reply_ok, reply_error, or_reply}
use ovfs.Filesystem.Request.{read_obj, read_name, some_name, with_path}
use ovfs.Filesystem.Table.Steps.{
  On, path-opened_file, Keeps-on_memory, Keeps-from_memory, Keeps-on_storage, Keeps-opened_path,
  Keeps-sub_usize, Keeps-or_reply, Keeps-put_writer, Keeps-writer_of, Keeps-on_writer,
  Keeps-drop_writer,
}
use ovfs.Filesystem.Operations.{
  inode_of, do_get_metadata, dir_entry, dir_entries, do_readdir, check_flags, start_of, open_writer,
  do_set_writer, do_release_writer, count_written, do_write,
}

module _ (h : Host) (P : h.slab.Slots → Dict ℕ → Type 0) where
  pub Keeps-put : (w : Writer h.volatile) (bytes : List ℕ) → Keeps (On h P) (put h w bytes)
  unfolding put
  Keeps-put w bytes = Keeps-on_memory h P (write_all h.volatile w bytes)

  pub Keeps-put_some :
      (w : Writer h.volatile) (bytes : Option (List ℕ)) → Keeps (On h P) (put_some h w bytes)
  unfolding put_some
  Keeps-put_some w none = Keeps-pure w
  Keeps-put_some w (some bytes) = Keeps-put w bytes

  pub Keeps-reply_error :
      (unique : ℕ) (w : Writer h.volatile) (e : ℕ) → Keeps (On h P) (reply_error h unique w e)
  unfolding reply_error
  Keeps-reply_error unique w e = search (keeps_rules, Keeps-put)

  pub Keeps-reply_ok :
      {T : Type 0} ⦃b : ByteValued T⦄ (out : Option T) (body : Option (List ℕ)) (unique : ℕ)
      (w : Writer h.volatile)
      → Keeps (On h P) (reply_ok h out body unique w)
  unfolding reply_ok
  Keeps-reply_ok out body unique w = search (keeps_rules, Keeps-put, Keeps-put_some)

  pub Keeps-read_obj :
      {T : Type 0} ⦃b : ByteValued T⦄ (r : Reader h.volatile)
      → Keeps (On h P) (read_obj h {T = T} r)
  unfolding read_obj
  Keeps-read_obj ⦃b⦄ r = search (keeps_rules, Keeps-from_memory h P)

  pub Keeps-read_name :
      (in_header : InHeader) (fixed : ℕ) (r : Reader h.volatile)
      → Keeps (On h P) (read_name h in_header fixed r)
  unfolding read_name
  Keeps-read_name in_header fixed r =
      search (keeps_rules, Keeps-from_memory h P, Keeps-sub_usize h P)

  pub Keeps-some_name : (name : Option (List ℕ)) → Keeps (On h P) (some_name h name)
  unfolding some_name
  Keeps-some_name none = Keeps-raise _
  Keeps-some_name (some name) = Keeps-pure name

  pub Keeps-answered :
      {A : Type 0} (unique : ℕ) (w : Writer h.volatile) (error : ℕ) (m : Fs h A) (k : A → Fs h ℕ)
      → Keeps (On h P) m
      → ((a : A) → Keeps (On h P) (k a))
      → Keeps (On h P) (or_reply h unique w error m k)
  Keeps-answered unique w error m k km kk =
      Keeps-or_reply h P unique w error m k (Keeps-reply_error unique w error) km kk

  pub Keeps-with_path :
      (in_header : InHeader) (fixed : ℕ) (r : Reader h.volatile) (w : Writer h.volatile)
      (k : List ℕ → Fs h ℕ)
      → ((path : List ℕ) → Keeps (On h P) (k path))
      → Keeps (On h P) (with_path h in_header fixed r w k)
  unfolding with_path
  Keeps-with_path in_header fixed r w k kk =
      search
        (keeps_rules, Keeps-answered, Keeps-read_name, Keeps-some_name, Keeps-opened_path h P, kk)

  Keeps-start_of : (is_append : Bool) (path : List ℕ) → Keeps (On h P) (start_of h is_append path)
  unfolding start_of
  Keeps-start_of true path = search (keeps_rules, Keeps-on_storage h P)
  Keeps-start_of false path = Keeps-pure 0

  pub Keeps-do_set_writer :
      (path : List ℕ) (flags : ℕ) → Keeps (On h P) (do_set_writer h path flags)
  unfolding do_set_writer open_writer check_flags
  Keeps-do_set_writer path flags =
      search (keeps_rules, Keeps-on_storage h P, Keeps-put_writer h P, Keeps-start_of)

  pub Keeps-do_release_writer : (path : List ℕ) → Keeps (On h P) (do_release_writer h path)
  unfolding do_release_writer
  Keeps-do_release_writer path =
      search (keeps_rules, Keeps-writer_of h P, Keeps-on_writer h P, Keeps-drop_writer h P)

  Keeps-count_written : (path : List ℕ) (len : ℕ) → Keeps (On h P) (count_written h path len)
  unfolding count_written
  Keeps-count_written path len = search (keeps_rules, Keeps-writer_of h P, Keeps-put_writer h P)

  pub Keeps-do_write :
      (path : List ℕ) (offset : ℕ) (bytes : List ℕ) → Keeps (On h P) (do_write h path offset bytes)
  unfolding do_write
  Keeps-do_write path offset bytes =
      search (keeps_rules, Keeps-writer_of h P, Keeps-on_writer h P, Keeps-count_written) depth 10

  -- What the handlers do to the tables themselves.
  pub record IsKept : Type 0 where
    pub at_inode_of :
        (path : List ℕ) (f : OpenedFile) → f.path ≡ path → Keeps (On h P) (inode_of h path f)
    pub at_new_entry :
        (f : OpenedFile) (path : List ℕ) (k : ℕ → Fs h ℕ)
        → f.path ≡ path
        → ((inode : ℕ) → Keeps (On h P) (k inode))
        → Keeps (On h P) (allocate h f >>= λ inode. map_path h path inode >> k inode)
    pub at_unmap_path : (path : List ℕ) → Keeps (On h P) (unmap_path h path)

  module _ (K : IsKept) where
    pub Keeps-do_get_metadata : (path : List ℕ) → Keeps (On h P) (do_get_metadata h path)
    unfolding do_get_metadata
    Keeps-do_get_metadata path =
        search (keeps_rules, Keeps-on_storage h P, K.at_inode_of, path-opened_file) depth 10

    Keeps-dir_entry :
        (path : List ℕ) (i : ℕ) (entry : Entry) → Keeps (On h P) (dir_entry h path i entry)
    unfolding dir_entry
    Keeps-dir_entry path i entry = search (keeps_rules, K.at_inode_of, path-opened_file) depth 10

    Keeps-dir_entries :
        (path : List ℕ) (i : ℕ) (entries : List Entry)
        → Keeps (On h P) (dir_entries h path i entries)
    unfolding dir_entries
    Keeps-dir_entries path i [] = Keeps-pure []
    Keeps-dir_entries path i (entry ∷ entries) =
        search (keeps_rules, Keeps-dir_entry path i entry, Keeps-dir_entries path (i + 1) entries)

    pub Keeps-do_readdir : (path : List ℕ) → Keeps (On h P) (do_readdir h path)
    unfolding do_readdir
    Keeps-do_readdir path = search (keeps_rules, Keeps-on_storage h P, Keeps-dir_entries)

pub ruleset handler_rules = (keeps_rules, Keeps-answered, Keeps-opened_path, Keeps-reply_ok)
