-- ===== src/Filesystem/Ends/Operations.antt =====
-- Termination of the `do_` functions of src/filesystem.rs.
use ovfs.Prelude.{ℕ, ◌+◌, Bool, true, false, Option, none, some, List, [], ◌∷◌}
use ovfs.Prelude.Outcome.{Exec}
use ovfs.Prelude.Exec.Ends.{Ends, Ends-bind, Ends-pure, Ends-ok_or, ends-map_err, ends_rules}
use ovfs.Prelude.Dict.{lookup}
use ovfs.Error.{ErrorKind}
use ovfs.Filesystem.Host.{Entry}
use ovfs.Filesystem.State.{OpenedFile, Host, InnerWriter}
use ovfs.Filesystem.Operations.{
  check_flags, inode_or_new, inode_of, do_get_metadata, start_of, put_writer, open_writer,
  do_set_writer, writer_of, on_writer, drop_writer, do_release_writer, do_delete, do_read,
  count_written, do_write, do_create_dir, dir_entry, dir_entries, do_readdir,
}
use ovfs.Filesystem.Ends.Calls.{OperatorEnds, Ends-on_storage, Ends-allocate, Ends-map_path}

module _ (h : Host) (C : OperatorEnds h.core) where
  Ends-inode_or_new :
      (path : List ℕ) (f : OpenedFile) (known : Option ℕ) → Ends (inode_or_new h path f known)
  unfolding inode_or_new
  Ends-inode_or_new path f (some inode) = Ends-pure inode
  Ends-inode_or_new path f none = search (ends_rules, Ends-allocate h, Ends-map_path h)

  Ends-inode_of : (path : List ℕ) (f : OpenedFile) → Ends (inode_of h path f)
  unfolding inode_of
  Ends-inode_of path f = record { at = λ s. (Ends-inode_or_new path f _).at s }

  pub Ends-do_get_metadata : (path : List ℕ) → Ends (do_get_metadata h path)
  unfolding do_get_metadata
  Ends-do_get_metadata path = search (ends_rules, Ends-on_storage h, C.stat, Ends-inode_of)

  Ends-check_flags : (flags : ℕ) → Ends (check_flags h flags)
  unfolding check_flags
  Ends-check_flags flags = search ends_rules

  Ends-start_of : (is_append : Bool) (path : List ℕ) → Ends (start_of h is_append path)
  unfolding start_of
  Ends-start_of true path = search (ends_rules, Ends-on_storage h, C.stat)
  Ends-start_of false path = Ends-pure 0

  Ends-put_writer : (path : List ℕ) (w : InnerWriter h) → Ends (put_writer h path w)
  unfolding put_writer
  Ends-put_writer path w = record { at = λ s e. cc }

  Ends-open_writer : (path : List ℕ) (is_append : Bool) → Ends (open_writer h path is_append)
  unfolding open_writer
  Ends-open_writer path is_append =
      search (ends_rules, Ends-on_storage h, C.writer_with, Ends-start_of, Ends-put_writer)

  pub Ends-do_set_writer : (path : List ℕ) (flags : ℕ) → Ends (do_set_writer h path flags)
  unfolding do_set_writer
  Ends-do_set_writer path flags = search (ends_rules, Ends-check_flags, Ends-open_writer)

  Ends-writer_of : (path : List ℕ) → Ends (writer_of h path)
  unfolding writer_of
  Ends-writer_of path = record { at = λ s. (Ends-ok_or _ (lookup path s.opened_files_writer)).at s }

  Ends-on_writer :
      (path : List ℕ) (w : InnerWriter h)
      (m : Exec (h.core.Writer × h.core.State) ErrorKind (Unit {0}))
      → Ends m
      → Ends (on_writer h path w m)
  unfolding on_writer
  Ends-on_writer path w m e = record {
    at = λ s. ends-map_err _ (m (w.writer, s.storage)).0 (e.at (w.writer, s.storage));
  }

  Ends-drop_writer : (path : List ℕ) → Ends (drop_writer h path)
  unfolding drop_writer
  Ends-drop_writer path = record { at = λ s e. cc }

  pub Ends-do_release_writer : (path : List ℕ) → Ends (do_release_writer h path)
  unfolding do_release_writer
  Ends-do_release_writer path =
      Ends-bind _ _ (Ends-writer_of path)
        λ w. Ends-bind _ _ (Ends-on_writer path w h.core.close C.close) λ _. Ends-drop_writer path

  pub Ends-do_delete : (path : List ℕ) → Ends (do_delete h path)
  unfolding do_delete
  Ends-do_delete path = search (Ends-on_storage h, C.delete)

  pub Ends-do_read : (path : List ℕ) (offset : ℕ) → Ends (do_read h path offset)
  unfolding do_read
  Ends-do_read path offset = search (Ends-on_storage h, C.read_with)

  Ends-count_written : (path : List ℕ) (len : ℕ) → Ends (count_written h path len)
  unfolding count_written
  Ends-count_written path len = search (ends_rules, Ends-writer_of, Ends-put_writer)

  pub Ends-do_write :
      (path : List ℕ) (offset : ℕ) (bytes : List ℕ) → Ends (do_write h path offset bytes)
  unfolding do_write
  Ends-do_write path offset bytes =
      search (ends_rules, Ends-writer_of, Ends-on_writer, C.write_from, Ends-count_written) depth 10

  pub Ends-do_create_dir : (path : List ℕ) → Ends (do_create_dir h path)
  unfolding do_create_dir
  Ends-do_create_dir path = search (Ends-on_storage h, C.create_dir)

  Ends-dir_entry : (path : List ℕ) (i : ℕ) (entry : Entry) → Ends (dir_entry h path i entry)
  unfolding dir_entry
  Ends-dir_entry path i entry = search (ends_rules, Ends-inode_of) depth 10

  Ends-dir_entries :
      (path : List ℕ) (i : ℕ) (entries : List Entry) → Ends (dir_entries h path i entries)
  unfolding dir_entries
  Ends-dir_entries path i [] = Ends-pure []
  Ends-dir_entries path i (entry ∷ entries) =
      search (ends_rules, Ends-dir_entry path i entry, Ends-dir_entries path (i + 1) entries)

  pub Ends-do_readdir : (path : List ℕ) → Ends (do_readdir h path)
  unfolding do_readdir
  Ends-do_readdir path = search (ends_rules, Ends-on_storage h, C.list, Ends-dir_entries)
