-- ===== src/Filesystem/Ends/Requests.antt =====
-- Termination of the handlers of src/filesystem.rs and of `handle_message`.
use ovfs.Prelude.{ℕ, List, [], ◌∷◌, ◌+◌, ◌≢◌, refl}
use ovfs.Prelude.Outcome.{ok, err, panic, hang}
use ovfs.Prelude.Exec.{unwrap}
use ovfs.Prelude.Exec.Ends.{Ends, Ends-bind, Ends-pure, Ends-unwrap, ends-map_err, ends_rules}
use ovfs.Libc
use ovfs.Error.{Error, Result}
use ovfs.Stream.{IoResult, Reader, Writer, writer_split_at}
use ovfs.Stream.Ends.{ends-writer_split_at}
use ovfs.Buffer.{BufferWrapper}
use ovfs.Buffer.Ends.{Ends-write_from_at, Ends-read_to_at}
use ovfs.Message.{Opcode, InHeader}
use ovfs.Filesystem.State.{Host, World}
use ovfs.Filesystem.Reply.{DirEntry, size_of_header}
use ovfs.Filesystem.Handlers
use ovfs.Filesystem.DataHandlers
use ovfs.Filesystem.DataHandlers.{buffered, read_buffer, put_entries, put_header}
use ovfs.Filesystem.Dispatch.{handle, dispatch, handle_message}
use ovfs.Filesystem.Ends.Calls.{
  OperatorEnds, Ends-allocate, Ends-map_path, Ends-unmap_path, Ends-on_memory, Ends-put,
  Ends-reply_error, Ends-reply_add_dir_entry, Ends-with_path, answer_rules,
}
use ovfs.Filesystem.Ends.Operations.{
  Ends-do_get_metadata, Ends-do_set_writer, Ends-do_release_writer, Ends-do_delete, Ends-do_read,
  Ends-do_write, Ends-do_create_dir, Ends-do_readdir,
}

module _ (h : Host) (C : OperatorEnds h.core) where
  Ends-init :
      (in_header : InHeader) (r : Reader h.volatile) (w : Writer h.volatile)
      → Ends (Handlers.init h in_header r w)
  unfolding Handlers.init
  Ends-init in_header r w = search (answer_rules, Ends-allocate h, Ends-map_path h) depth 14

  Ends-lookup :
      (in_header : InHeader) (r : Reader h.volatile) (w : Writer h.volatile)
      → Ends (Handlers.lookup h in_header r w)
  unfolding Handlers.lookup
  Ends-lookup in_header r w =
      search (answer_rules, Ends-with_path h, Ends-do_get_metadata h C) depth 14

  Ends-getattr :
      (in_header : InHeader) (r : Reader h.volatile) (w : Writer h.volatile)
      → Ends (Handlers.getattr h in_header r w)
  unfolding Handlers.getattr
  Ends-getattr in_header r w = search (answer_rules, Ends-do_get_metadata h C) depth 14

  Ends-create :
      (in_header : InHeader) (r : Reader h.volatile) (w : Writer h.volatile)
      → Ends (Handlers.create h in_header r w)
  unfolding Handlers.create
  Ends-create in_header r w =
      search
        (answer_rules, Ends-with_path h, Ends-allocate h, Ends-map_path h, Ends-do_set_writer h C)
        depth 14

  Ends-unlink :
      (in_header : InHeader) (r : Reader h.volatile) (w : Writer h.volatile)
      → Ends (Handlers.unlink h in_header r w)
  unfolding Handlers.unlink
  Ends-unlink in_header r w =
      search (answer_rules, Ends-with_path h, Ends-do_delete h C, Ends-unmap_path h) depth 14

  Ends-release :
      (in_header : InHeader) (r : Reader h.volatile) (w : Writer h.volatile)
      → Ends (Handlers.release h in_header r w)
  unfolding Handlers.release
  Ends-release in_header r w = search (answer_rules, Ends-do_release_writer h C) depth 14

  Ends-flush :
      (in_header : InHeader) (r : Reader h.volatile) (w : Writer h.volatile)
      → Ends (Handlers.flush h in_header r w)
  unfolding Handlers.flush
  Ends-flush in_header r w = search (answer_rules) depth 14

  Ends-open_file :
      (in_header : InHeader) (r : Reader h.volatile) (w : Writer h.volatile)
      → Ends (Handlers.open_file h in_header r w)
  unfolding Handlers.open_file
  Ends-open_file in_header r w = search (answer_rules, Ends-do_set_writer h C) depth 14

  Ends-split :
      (w : Writer h.volatile)
      → Ends (unwrap {S = World h} {E = Error} (writer_split_at h.volatile size_of_header w))
  Ends-split w = Ends-unwrap _ (ends-writer_split_at h.volatile size_of_header w)

  Ends-read :
      (in_header : InHeader) (r : Reader h.volatile) (w : Writer h.volatile)
      → Ends (DataHandlers.read h in_header r w)
  unfolding DataHandlers.read
  Ends-read in_header r w =
      search
        (
          answer_rules,
          Ends-do_read h C,
          Ends-split,
          Ends-on_memory h,
          Ends-write_from_at h.volatile,
          Ends-put h,
        )
        depth 14

  ends-buffered : {A : Type 0} (o : IoResult A) (b : BufferWrapper) → o ≢ hang → buffered o b ≢ hang
  ends-buffered (ok a) b e = λ p. cc
  ends-buffered (err x) b e = λ p. cc
  ends-buffered panic b e = λ p. cc
  ends-buffered hang b e = absurd (e refl)

  Ends-read_buffer : (r : Reader h.volatile) (size : ℕ) → Ends (read_buffer h r size)
  unfolding read_buffer
  Ends-read_buffer r size = record {
    at = λ s. ends-map_err _ _ (
        ends-buffered _ _
          ((Ends-read_to_at h.volatile s.memory r size).at (record { buffer = [] })));
  }

  Ends-write :
      (in_header : InHeader) (r : Reader h.volatile) (w : Writer h.volatile)
      → Ends (DataHandlers.write h in_header r w)
  unfolding DataHandlers.write
  Ends-write in_header r w = search (answer_rules, Ends-read_buffer, Ends-do_write h C) depth 14

  Ends-mkdir :
      (in_header : InHeader) (r : Reader h.volatile) (w : Writer h.volatile)
      → Ends (DataHandlers.mkdir h in_header r w)
  unfolding DataHandlers.mkdir
  Ends-mkdir in_header r w =
      search
        (answer_rules, Ends-with_path h, Ends-allocate h, Ends-map_path h, Ends-do_create_dir h C)
        depth 14

  Ends-rmdir :
      (in_header : InHeader) (r : Reader h.volatile) (w : Writer h.volatile)
      → Ends (DataHandlers.rmdir h in_header r w)
  unfolding DataHandlers.rmdir
  Ends-rmdir in_header r w =
      search (answer_rules, Ends-with_path h, Ends-do_delete h C, Ends-unmap_path h) depth 14

  Ends-releasedir :
      (in_header : InHeader) (r : Reader h.volatile) (w : Writer h.volatile)
      → Ends (DataHandlers.releasedir h in_header r w)
  unfolding DataHandlers.releasedir
  Ends-releasedir in_header r w = search (answer_rules) depth 14

  Ends-fsyncdir :
      (in_header : InHeader) (r : Reader h.volatile) (w : Writer h.volatile)
      → Ends (DataHandlers.fsyncdir h in_header r w)
  unfolding DataHandlers.fsyncdir
  Ends-fsyncdir in_header r w = search (answer_rules) depth 14

  Ends-opendir :
      (in_header : InHeader) (r : Reader h.volatile) (w : Writer h.volatile)
      → Ends (DataHandlers.opendir h in_header r w)
  unfolding DataHandlers.opendir
  Ends-opendir in_header r w = search (answer_rules) depth 14

  Ends-put_entries :
      (w : Writer h.volatile) (total : ℕ) (entries : List DirEntry)
      → Ends (put_entries h w total entries)
  unfolding put_entries
  Ends-put_entries w total [] = Ends-pure total
  Ends-put_entries w total (entry ∷ entries) =
      Ends-bind _ _ (Ends-reply_add_dir_entry h w entry)
        λ done. Ends-put_entries done.1 (total + done.0) entries

  Ends-put_header :
      (unique : ℕ) (w : Writer h.volatile) (written : ℕ) → Ends (put_header h unique w written)
  unfolding put_header
  Ends-put_header unique w written = search (ends_rules, Ends-put h) depth 10

  Ends-readdir :
      (in_header : InHeader) (r : Reader h.volatile) (w : Writer h.volatile)
      → Ends (DataHandlers.readdir h in_header r w)
  unfolding DataHandlers.readdir
  Ends-readdir in_header r w =
      search (answer_rules, Ends-split, Ends-do_readdir h C, Ends-put_header, Ends-put_entries)
        depth 14

  Ends-handle :
      (opcode : Opcode) (in_header : InHeader) (r : Reader h.volatile) (w : Writer h.volatile)
      → Ends (handle h opcode in_header r w)
  unfolding handle Handlers.destory Handlers.forget Handlers.setattr
  Ends-handle Opcode.init in_header r w = Ends-init in_header r w
  Ends-handle Opcode.destroy in_header r w = Ends-pure 0
  Ends-handle Opcode.forget in_header r w = Ends-pure 0
  Ends-handle Opcode.lookup in_header r w = Ends-lookup in_header r w
  Ends-handle Opcode.getattr in_header r w = Ends-getattr in_header r w
  Ends-handle Opcode.setattr in_header r w = Ends-getattr in_header r w
  Ends-handle Opcode.create in_header r w = Ends-create in_header r w
  Ends-handle Opcode.unlink in_header r w = Ends-unlink in_header r w
  Ends-handle Opcode.release in_header r w = Ends-release in_header r w
  Ends-handle Opcode.flush in_header r w = Ends-flush in_header r w
  Ends-handle Opcode.open_ in_header r w = Ends-open_file in_header r w
  Ends-handle Opcode.read in_header r w = Ends-read in_header r w
  Ends-handle Opcode.write in_header r w = Ends-write in_header r w
  Ends-handle Opcode.mkdir in_header r w = Ends-mkdir in_header r w
  Ends-handle Opcode.rmdir in_header r w = Ends-rmdir in_header r w
  Ends-handle Opcode.releasedir in_header r w = Ends-releasedir in_header r w
  Ends-handle Opcode.fsyncdir in_header r w = Ends-fsyncdir in_header r w
  Ends-handle Opcode.opendir in_header r w = Ends-opendir in_header r w
  Ends-handle Opcode.readdir in_header r w = Ends-readdir in_header r w

  Ends-dispatch :
      (opcode : Result Opcode) (in_header : InHeader) (r : Reader h.volatile)
      (w : Writer h.volatile)
      → Ends (dispatch h opcode in_header r w)
  unfolding dispatch
  Ends-dispatch (ok opcode) in_header r w = Ends-handle opcode in_header r w
  Ends-dispatch (err e) in_header r w = Ends-reply_error h in_header.unique w Libc.enosys
  Ends-dispatch panic in_header r w = Ends-reply_error h in_header.unique w Libc.enosys
  Ends-dispatch hang in_header r w = Ends-reply_error h in_header.unique w Libc.enosys

  pub Ends-handle_message :
      (r : Reader h.volatile) (w : Writer h.volatile) → Ends (handle_message h r w)
  unfolding handle_message
  Ends-handle_message r w = search (answer_rules, Ends-dispatch) depth 10

  -- What the calls of the backend use of it.
  pub handle_message-ends :
      (r : Reader h.volatile) (w : Writer h.volatile) (s : World h)
      → (handle_message h r w s).0 ≢ hang
  handle_message-ends r w s = (Ends-handle_message r w).at s
