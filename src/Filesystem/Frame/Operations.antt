-- ===== src/Filesystem/Frame/Operations.antt =====
-- Guest memory along the `do_` functions of src/filesystem.rs.
use ovfs.Prelude.Exec.{ok_or}
use ovfs.Prelude.{
  Option-cases, inl, inr, ℕ, ◌+◌, Bool, true, false, Option, none, some, List, [], ◌∷◌,
}
use ovfs.Prelude.Outcome.{Exec}
use ovfs.Prelude.Exec.Keeps.{Keeps, Keeps-bind, Keeps-pure, keeps_rules}
use ovfs.Prelude.Dict.{lookup}
use ovfs.Error.{ErrorKind}
use ovfs.Filesystem.Host.{Entry}
use ovfs.Filesystem.State.{OpenedFile, Host, InnerWriter}
use ovfs.Filesystem.Operations.{
  check_flags, inode_or_new, inode_of, do_get_metadata, start_of, put_writer, open_writer,
  do_set_writer, writer_of, on_writer, drop_writer, do_release_writer, do_delete, do_read,
  count_written, do_write, do_create_dir, dir_entry, dir_entries, do_readdir,
}
use ovfs.Filesystem.Frame.Steps.{Same, Keeps-on_storage, Keeps-allocate, Keeps-map_path}

module _ (h : Host) (a b : ℕ) where
  Keeps-inode_or_new :
      (path : List ℕ) (f : OpenedFile) (known : Option ℕ)
      → Keeps (Same h a b) (inode_or_new h path f known)
  unfolding inode_or_new
  Keeps-inode_or_new path f (some inode) = Keeps-pure inode
  Keeps-inode_or_new path f none = search (keeps_rules, Keeps-allocate h a b, Keeps-map_path h a b)

  Keeps-inode_of : (path : List ℕ) (f : OpenedFile) → Keeps (Same h a b) (inode_of h path f)
  unfolding inode_of
  Keeps-inode_of path f = record { at = λ s. (Keeps-inode_or_new path f _).at s }

  pub Keeps-do_get_metadata : (path : List ℕ) → Keeps (Same h a b) (do_get_metadata h path)
  unfolding do_get_metadata
  Keeps-do_get_metadata path = search (keeps_rules, Keeps-on_storage h a b, Keeps-inode_of)

  Keeps-check_flags : (flags : ℕ) → Keeps (Same h a b) (check_flags h flags)
  unfolding check_flags
  Keeps-check_flags flags = search keeps_rules

  Keeps-start_of :
      (is_append : Bool) (path : List ℕ) → Keeps (Same h a b) (start_of h is_append path)
  unfolding start_of
  Keeps-start_of true path = search (keeps_rules, Keeps-on_storage h a b)
  Keeps-start_of false path = Keeps-pure 0

  Keeps-put_writer : (path : List ℕ) (w : InnerWriter h) → Keeps (Same h a b) (put_writer h path w)
  unfolding put_writer
  Keeps-put_writer path w = record { at = λ s same. same }

  Keeps-open_writer :
      (path : List ℕ) (is_append : Bool) → Keeps (Same h a b) (open_writer h path is_append)
  unfolding open_writer
  Keeps-open_writer path is_append =
      search (keeps_rules, Keeps-on_storage h a b, Keeps-start_of, Keeps-put_writer)

  pub Keeps-do_set_writer :
      (path : List ℕ) (flags : ℕ) → Keeps (Same h a b) (do_set_writer h path flags)
  unfolding do_set_writer
  Keeps-do_set_writer path flags = search (keeps_rules, Keeps-check_flags, Keeps-open_writer)

  Keeps-writer_of : (path : List ℕ) → Keeps (Same h a b) (writer_of h path)
  unfolding writer_of ok_or
  Keeps-writer_of path = record {
    at = λ s same. elim (Option-cases (lookup path s.opened_files_writer)) [
      | inl e ↦ rw (e, ok_or) same
      | inr (w, e) ↦ rw (e, ok_or) same
    ];
  }

  Keeps-on_writer :
      (path : List ℕ) (w : InnerWriter h)
      (m : Exec (h.core.Writer × h.core.State) ErrorKind (Unit {0}))
      → Keeps (Same h a b) (on_writer h path w m)
  unfolding on_writer
  Keeps-on_writer path w m = record { at = λ s same. same }

  Keeps-drop_writer : (path : List ℕ) → Keeps (Same h a b) (drop_writer h path)
  unfolding drop_writer
  Keeps-drop_writer path = record { at = λ s same. same }

  pub Keeps-do_release_writer : (path : List ℕ) → Keeps (Same h a b) (do_release_writer h path)
  unfolding do_release_writer
  Keeps-do_release_writer path =
      Keeps-bind _ _ (Keeps-writer_of path)
        λ w. Keeps-bind _ _ (Keeps-on_writer path w h.core.close) λ _. Keeps-drop_writer path

  pub Keeps-do_delete : (path : List ℕ) → Keeps (Same h a b) (do_delete h path)
  unfolding do_delete
  Keeps-do_delete path = search (Keeps-on_storage h a b)

  pub Keeps-do_read : (path : List ℕ) (offset : ℕ) → Keeps (Same h a b) (do_read h path offset)
  unfolding do_read
  Keeps-do_read path offset = search (Keeps-on_storage h a b)

  Keeps-count_written : (path : List ℕ) (len : ℕ) → Keeps (Same h a b) (count_written h path len)
  unfolding count_written
  Keeps-count_written path len = search (keeps_rules, Keeps-writer_of, Keeps-put_writer)

  pub Keeps-do_write :
      (path : List ℕ) (offset : ℕ) (bytes : List ℕ)
      → Keeps (Same h a b) (do_write h path offset bytes)
  unfolding do_write
  Keeps-do_write path offset bytes =
      search (keeps_rules, Keeps-writer_of, Keeps-on_writer, Keeps-count_written) depth 10

  pub Keeps-do_create_dir : (path : List ℕ) → Keeps (Same h a b) (do_create_dir h path)
  unfolding do_create_dir
  Keeps-do_create_dir path = search (Keeps-on_storage h a b)

  Keeps-dir_entry :
      (path : List ℕ) (i : ℕ) (entry : Entry) → Keeps (Same h a b) (dir_entry h path i entry)
  unfolding dir_entry
  Keeps-dir_entry path i entry = search (keeps_rules, Keeps-inode_of) depth 10

  Keeps-dir_entries :
      (path : List ℕ) (i : ℕ) (entries : List Entry)
      → Keeps (Same h a b) (dir_entries h path i entries)
  unfolding dir_entries
  Keeps-dir_entries path i [] = Keeps-pure []
  Keeps-dir_entries path i (entry ∷ entries) =
      search (keeps_rules, Keeps-dir_entry path i entry, Keeps-dir_entries path (i + 1) entries)

  pub Keeps-do_readdir : (path : List ℕ) → Keeps (Same h a b) (do_readdir h path)
  unfolding do_readdir
  Keeps-do_readdir path = search (keeps_rules, Keeps-on_storage h a b, Keeps-dir_entries)
