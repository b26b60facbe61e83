-- ===== src/Filesystem/Table/Handlers.antt =====
-- The handlers of src/filesystem.rs on the two tables, from what their calls do to these.
use ovfs.Prelude.{ℕ, List, [], ◌∷◌, ◌+◌}
use ovfs.Prelude.Outcome.{ok, err, panic, hang}
use ovfs.Prelude.Exec.Keeps.{Keeps, Keeps-bind, Keeps-pure, keeps_rules}
use ovfs.Prelude.Dict.{Dict}
use ovfs.Libc
use ovfs.Stream.{Reader, Writer}
use ovfs.Error.{Result}
use ovfs.Message.{Opcode, InHeader}
use ovfs.Filesystem.State.{Host}
use ovfs.Filesystem.Operations.{do_delete, do_read, do_create_dir}
use ovfs.Filesystem.Reply.{DirEntry, reply_add_dir_entry}
use ovfs.Filesystem.Handlers
use ovfs.Filesystem.DataHandlers
use ovfs.Filesystem.DataHandlers.{read_buffer, put_entries, put_header}
use ovfs.Filesystem.Dispatch.{handle, dispatch, handle_message}
use ovfs.Filesystem.Table.Steps.{On, Keeps-on_memory, Keeps-on_storage}
use ovfs.Filesystem.Table.Calls.{
  IsKept, Keeps-put, Keeps-reply_error, Keeps-read_obj, Keeps-with_path, handler_rules,
  Keeps-do_set_writer, Keeps-do_release_writer, Keeps-do_write, Keeps-do_get_metadata,
  Keeps-do_readdir,
}

module _ (h : Host) (P : h.slab.Slots → Dict ℕ → Type 0) (K : IsKept h P) where
  pub Keeps-lookup :
      (in_header : InHeader) (r : Reader h.volatile) (w : Writer h.volatile)
      → Keeps (On h P) (Handlers.lookup h in_header r w)
  unfolding Handlers.lookup
  Keeps-lookup in_header r w =
      search (handler_rules, Keeps-with_path h P, Keeps-do_get_metadata h P K) depth 12

  pub Keeps-getattr :
      (in_header : InHeader) (r : Reader h.volatile) (w : Writer h.volatile)
      → Keeps (On h P) (Handlers.getattr h in_header r w)
  unfolding Handlers.getattr
  Keeps-getattr in_header r w = search (handler_rules, Keeps-do_get_metadata h P K) depth 12

  pub Keeps-create :
      (in_header : InHeader) (r : Reader h.volatile) (w : Writer h.volatile)
      → Keeps (On h P) (Handlers.create h in_header r w)
  unfolding Handlers.create
  Keeps-create in_header r w =
      search
        (
          handler_rules,
          Keeps-read_obj h P,
          Keeps-with_path h P,
          K.at_new_entry,
          Keeps-do_set_writer h P,
        )
        depth 12

  pub Keeps-unlink :
      (in_header : InHeader) (r : Reader h.volatile) (w : Writer h.volatile)
      → Keeps (On h P) (Handlers.unlink h in_header r w)
  unfolding Handlers.unlink do_delete
  Keeps-unlink in_header r w =
      search (handler_rules, Keeps-with_path h P, Keeps-on_storage h P, K.at_unmap_path) depth 12

  pub Keeps-release :
      (in_header : InHeader) (r : Reader h.volatile) (w : Writer h.volatile)
      → Keeps (On h P) (Handlers.release h in_header r w)
  unfolding Handlers.release
  Keeps-release in_header r w = search (handler_rules, Keeps-do_release_writer h P) depth 12

  pub Keeps-flush :
      (in_header : InHeader) (r : Reader h.volatile) (w : Writer h.volatile)
      → Keeps (On h P) (Handlers.flush h in_header r w)
  unfolding Handlers.flush
  Keeps-flush in_header r w = search (handler_rules) depth 12

  pub Keeps-open_file :
      (in_header : InHeader) (r : Reader h.volatile) (w : Writer h.volatile)
      → Keeps (On h P) (Handlers.open_file h in_header r w)
  unfolding Handlers.open_file
  Keeps-open_file in_header r w =
      search (handler_rules, Keeps-read_obj h P, Keeps-do_set_writer h P) depth 12

  pub Keeps-read :
      (in_header : InHeader) (r : Reader h.volatile) (w : Writer h.volatile)
      → Keeps (On h P) (DataHandlers.read h in_header r w)
  unfolding DataHandlers.read do_read
  Keeps-read in_header r w =
      search (handler_rules, Keeps-read_obj h P, Keeps-on_storage h P, Keeps-on_memory h P) depth 12

  Keeps-read_buffer : (r : Reader h.volatile) (size : ℕ) → Keeps (On h P) (read_buffer h r size)
  unfolding read_buffer
  Keeps-read_buffer r size = record { at = λ s p. p }

  pub Keeps-write :
      (in_header : InHeader) (r : Reader h.volatile) (w : Writer h.volatile)
      → Keeps (On h P) (DataHandlers.write h in_header r w)
  unfolding DataHandlers.write
  Keeps-write in_header r w =
      search (handler_rules, Keeps-read_obj h P, Keeps-read_buffer, Keeps-do_write h P) depth 12

  Keeps-do_create_dir : (path : List ℕ) → Keeps (On h P) (do_create_dir h path)
  unfolding do_create_dir
  Keeps-do_create_dir path = search (Keeps-on_storage h P)

  pub Keeps-mkdir :
      (in_header : InHeader) (r : Reader h.volatile) (w : Writer h.volatile)
      → Keeps (On h P) (DataHandlers.mkdir h in_header r w)
  unfolding DataHandlers.mkdir
  Keeps-mkdir in_header r w =
      search
        (
          handler_rules,
          Keeps-read_obj h P,
          Keeps-with_path h P,
          K.at_new_entry,
          Keeps-do_create_dir,
        )
        depth 12

  pub Keeps-rmdir :
      (in_header : InHeader) (r : Reader h.volatile) (w : Writer h.volatile)
      → Keeps (On h P) (DataHandlers.rmdir h in_header r w)
  unfolding DataHandlers.rmdir do_delete
  Keeps-rmdir in_header r w =
      search (handler_rules, Keeps-with_path h P, Keeps-on_storage h P, K.at_unmap_path) depth 12

  pub Keeps-releasedir :
      (in_header : InHeader) (r : Reader h.volatile) (w : Writer h.volatile)
      → Keeps (On h P) (DataHandlers.releasedir h in_header r w)
  unfolding DataHandlers.releasedir
  Keeps-releasedir in_header r w = search (handler_rules) depth 12

  pub Keeps-fsyncdir :
      (in_header : InHeader) (r : Reader h.volatile) (w : Writer h.volatile)
      → Keeps (On h P) (DataHandlers.fsyncdir h in_header r w)
  unfolding DataHandlers.fsyncdir
  Keeps-fsyncdir in_header r w = search (handler_rules) depth 12

  pub Keeps-opendir :
      (in_header : InHeader) (r : Reader h.volatile) (w : Writer h.volatile)
      → Keeps (On h P) (DataHandlers.opendir h in_header r w)
  unfolding DataHandlers.opendir
  Keeps-opendir in_header r w = search (handler_rules) depth 12

  Keeps-reply_add_dir_entry :
      (w : Writer h.volatile) (entry : DirEntry) → Keeps (On h P) (reply_add_dir_entry h w entry)
  unfolding reply_add_dir_entry
  Keeps-reply_add_dir_entry w entry = search (keeps_rules, Keeps-put h P) depth 10

  Keeps-put_entries :
      (w : Writer h.volatile) (total : ℕ) (entries : List DirEntry)
      → Keeps (On h P) (put_entries h w total entries)
  unfolding put_entries
  Keeps-put_entries w total [] = Keeps-pure total
  Keeps-put_entries w total (entry ∷ entries) =
      Keeps-bind _ _ (Keeps-reply_add_dir_entry w entry)
        λ done. Keeps-put_entries done.1 (total + done.0) entries

  Keeps-put_header :
      (unique : ℕ) (w : Writer h.volatile) (written : ℕ)
      → Keeps (On h P) (put_header h unique w written)
  unfolding put_header
  Keeps-put_header unique w written = search (keeps_rules, Keeps-put h P) depth 10

  pub Keeps-readdir :
      (in_header : InHeader) (r : Reader h.volatile) (w : Writer h.volatile)
      → Keeps (On h P) (DataHandlers.readdir h in_header r w)
  unfolding DataHandlers.readdir
  Keeps-readdir in_header r w =
      search
        (
          handler_rules,
          Keeps-read_obj h P,
          Keeps-do_readdir h P K,
          Keeps-put_header,
          Keeps-put_entries,
        )
        depth 12

module _ (h : Host) (P : h.slab.Slots → Dict ℕ → Type 0) where
  Keeps-dispatch :
      (opcode : Result Opcode) (in_header : InHeader) (r : Reader h.volatile)
      (w : Writer h.volatile)
      → ((o : Opcode) → Keeps (On h P) (handle h o in_header r w))
      → Keeps (On h P) (dispatch h opcode in_header r w)
  unfolding dispatch
  Keeps-dispatch (ok opcode) in_header r w handled = handled opcode
  Keeps-dispatch (err e) in_header r w handled =
      Keeps-reply_error h P in_header.unique w Libc.enosys
  Keeps-dispatch panic in_header r w handled = Keeps-reply_error h P in_header.unique w Libc.enosys
  Keeps-dispatch hang in_header r w handled = Keeps-reply_error h P in_header.unique w Libc.enosys

  pub Keeps-handle_message :
      (r : Reader h.volatile) (w : Writer h.volatile)
      → ((o : Opcode) (in_header : InHeader) (r' : Reader h.volatile)
          → Keeps (On h P) (handle h o in_header r' w))
      → Keeps (On h P) (handle_message h r w)
  unfolding handle_message
  Keeps-handle_message r w handled =
      search (keeps_rules, Keeps-read_obj h P, Keeps-reply_error h P, Keeps-dispatch, handled) depth
        10
