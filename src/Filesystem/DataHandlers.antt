-- ===== src/Filesystem/DataHandlers.antt =====
-- The handlers of src/filesystem.rs that move the data of files, and those of directories.
use ovfs.Prelude.{ℕ, ◌+◌, ◌%◌, ◌^◌, none, some}
use ovfs.Prelude.{List, [], ◌∷◌, leb, if◌then◌else◌, length}
use ovfs.Prelude.Outcome.{ok, err, panic, hang, map_err}
use ovfs.Prelude.Exec.{unwrap, pure, ◌>>=◌, ◌>>◌}
use ovfs.Libc
use ovfs.Stream.{IoResult, Reader, Writer, writer_split_at}
use ovfs.Buffer.{BufferWrapper, read_to_at, write_from_at}
use ovfs.Message.{
  InHeader, OutHeader, MkdirIn, ReadIn, WriteIn, default_open_out, default_write_out,
}
use ovfs.Message.Layout.{u8_byte_valued}
use ovfs.Message.Requests.{
  in_header_byte_valued, init_in_byte_valued, create_in_byte_valued, mkdir_in_byte_valued,
  open_in_byte_valued, write_in_byte_valued, read_in_byte_valued,
}
use ovfs.Message.Replies.{
  out_header_byte_valued, init_out_byte_valued, attr_out_byte_valued, entry_out_byte_valued,
  open_out_byte_valued, write_out_byte_valued,
}
use ovfs.Filesystem.State.{
  dir, opened_file, Host, Fs, errno, on_memory, allocate, map_path, unmap_path, opened_path,
}
use ovfs.Filesystem.Reply.{size_of_header, put, reply_ok, or_reply, DirEntry, reply_add_dir_entry}
use ovfs.Filesystem.Request.{entry_out, read_obj, with_path}
use ovfs.Filesystem.Operations.{with_ino, do_delete, do_read, do_write, do_create_dir, do_readdir}

abbrev pub buffered : {A : Type 0} → IoResult A → BufferWrapper → IoResult (List ℕ)
buffered (ok _) b = ok b.buffer
buffered (err e) b = err e
buffered panic b = panic
buffered hang b = hang

module _ (h : Host) where
  unfoldable pub read : InHeader → Reader h.volatile → Writer h.volatile → Fs h ℕ
  unfolding read_obj or_reply opened_path do_read put on_memory
  read in_header r w = do
    (read_in, r') ← read_obj h {T = ReadIn} r
    or_reply h in_header.unique w Libc.enoent (opened_path h in_header.nodeid) λ path.
        or_reply h in_header.unique w Libc.enoent (do_read h path read_in.offset) λ bytes. do
          (head, data_writer) ← unwrap (writer_split_at h.volatile size_of_header w)
          on_memory h
              (write_from_at h.volatile data_writer (record { buffer = bytes }) (length bytes))
          let out : OutHeader = record {
            len = (size_of_header + length bytes) % 2 ^ 32;
            error = 0;
            unique = in_header.unique;
          }
          put h head (out_header_byte_valued.as_slice out)
          pure out.len

  -- `r.read_to_at(&buffer, size)` into a new buffer.
  unfoldable pub read_buffer : Reader h.volatile → ℕ → Fs h (List ℕ)
  read_buffer r size s =
      let filled = read_to_at h.volatile s.memory r size (record { buffer = [] }) in
      (map_err (λ _. errno h Libc.eio) (buffered filled.0 filled.1), s)

  unfoldable pub write : InHeader → Reader h.volatile → Writer h.volatile → Fs h ℕ
  unfolding read_obj or_reply opened_path do_write read_buffer reply_ok
  write in_header r w = do
    (write_in, r') ← read_obj h {T = WriteIn} r
    or_reply h in_header.unique w Libc.enoent (opened_path h in_header.nodeid) λ path. do
      bytes ← read_buffer r' write_in.size
      or_reply h in_header.unique w Libc.eio (do_write h path write_in.offset bytes) λ _.
          reply_ok h (some (record default_write_out { size = write_in.size })) none
            in_header.unique w

  unfoldable pub mkdir : InHeader → Reader h.volatile → Writer h.volatile → Fs h ℕ
  unfolding read_obj with_path allocate map_path opened_file or_reply do_create_dir reply_ok
  mkdir in_header r w = do
    (mkdir_in, r') ← read_obj h {T = MkdirIn} r
    let fixed = in_header_byte_valued.size_of + mkdir_in_byte_valued.size_of
    with_path h in_header fixed r' w λ path. do
      let attr = opened_file dir path
      inode ← allocate h attr
      map_path h path inode
      let created = (with_ino inode attr).metadata
      or_reply h in_header.unique w Libc.enoent (do_create_dir h path)
          λ _. reply_ok h (some (entry_out created)) none in_header.unique w

  unfoldable pub rmdir : InHeader → Reader h.volatile → Writer h.volatile → Fs h ℕ
  unfolding with_path or_reply do_delete unmap_path reply_ok
  rmdir in_header r w = with_path h in_header in_header_byte_valued.size_of r w λ path.
      or_reply h in_header.unique w Libc.enoent (do_delete h path)
        λ _. do unmap_path h path; reply_ok h {T = ℕ} none none in_header.unique w

  unfoldable pub releasedir : InHeader → Reader h.volatile → Writer h.volatile → Fs h ℕ
  unfolding or_reply opened_path reply_ok
  releasedir in_header r w =
      or_reply h in_header.unique w Libc.enoent (opened_path h in_header.nodeid)
        λ _. reply_ok h {T = ℕ} none none in_header.unique w

  unfoldable pub fsyncdir : InHeader → Reader h.volatile → Writer h.volatile → Fs h ℕ
  unfolding or_reply opened_path reply_ok
  fsyncdir in_header r w =
      or_reply h in_header.unique w Libc.enoent (opened_path h in_header.nodeid)
        λ _. reply_ok h {T = ℕ} none none in_header.unique w

  unfoldable pub opendir : InHeader → Reader h.volatile → Writer h.volatile → Fs h ℕ
  unfolding or_reply opened_path reply_ok
  opendir in_header r w =
      or_reply h in_header.unique w Libc.enoent (opened_path h in_header.nodeid)
        λ _. reply_ok h (some default_open_out) none in_header.unique w

  -- The loop over the entries: the bytes written.
  unfoldable pub put_entries : Writer h.volatile → ℕ → List DirEntry → Fs h ℕ
  unfolding reply_add_dir_entry
  put_entries data_writer total_written [] = pure total_written
  put_entries data_writer total_written (entry ∷ entries) = do
    (len, next) ← reply_add_dir_entry h data_writer entry
    put_entries next (total_written + len) entries

  -- The answer of `readdir` behind its header.
  unfoldable pub put_header : ℕ → Writer h.volatile → ℕ → Fs h ℕ
  unfolding put
  put_header unique w written = do
    let out : OutHeader = record {
      len = (size_of_header + written) % 2 ^ 32;
      error = 0;
      unique = unique;
    }
    put h w (out_header_byte_valued.as_slice out)
    pure out.len

  unfoldable pub readdir : InHeader → Reader h.volatile → Writer h.volatile → Fs h ℕ
  unfolding read_obj or_reply opened_path do_readdir put_entries put_header
  readdir in_header r w =
      or_reply h in_header.unique w Libc.enoent (opened_path h in_header.nodeid) λ path. do
        (read_in, r') ← read_obj h {T = ReadIn} r
        (head, data_writer) ← unwrap (writer_split_at h.volatile size_of_header w)
        or_reply h in_header.unique head Libc.enoent (do_readdir h path) λ entries.
            if leb (length entries) read_in.offset
            then put_header in_header.unique head 0
            else or_reply h in_header.unique head Libc.eio (put_entries data_writer 0 entries)
                λ total_written. put_header in_header.unique head total_written
