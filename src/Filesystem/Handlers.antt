-- ===== src/Filesystem/Handlers.antt =====
-- The handlers of src/filesystem.rs, one for each request. A reader that a handler does not read on
-- is dropped.
pub mod Attributes
pub mod Release
pub mod ReadDir
pub mod Reads
use ovfs.Prelude.{ℕ, ◌+◌, not, ◌||◌, none, some}
use ovfs.Prelude.{[], ◌∷◌, ◌==◌, ltb, if◌then◌else◌}
use ovfs.Prelude.Exec.{pure, ◌>>=◌, ◌>>◌}
use ovfs.Libc
use ovfs.Stream.{Reader, Writer}
use ovfs.Message.{InHeader, InitIn, OpenIn, CreateIn, default_init_out, default_open_out}
use ovfs.Message.Layout.{u8_byte_valued}
use ovfs.Message.Requests.{
  in_header_byte_valued, init_in_byte_valued, create_in_byte_valued, mkdir_in_byte_valued,
  open_in_byte_valued, write_in_byte_valued, read_in_byte_valued,
}
use ovfs.Message.Replies.{
  out_header_byte_valued, init_out_byte_valued, attr_out_byte_valued, entry_out_byte_valued,
  open_out_byte_valued, write_out_byte_valued,
}
use ovfs.Filesystem.Text.{slash}
use ovfs.Filesystem.State.{
  dir, file, opened_file, Host, Fs, allocate, map_path, unmap_path, opened_path,
}
use ovfs.Filesystem.Reply.{reply_ok, reply_error, or_reply}
use ovfs.Filesystem.Request.{
  kernel_version, kernel_minor_version, min_kernel_minor_version, max_buffer_size,
  default_root_dir_inode, entry_out, attr_out, read_obj, with_path,
}
use ovfs.Filesystem.Operations.{
  with_ino, do_get_metadata, do_set_writer, do_release_writer, do_delete,
}

module _ (h : Host) where
  unfoldable pub init : InHeader → Reader h.volatile → Writer h.volatile → Fs h ℕ
  unfolding read_obj reply_error reply_ok allocate map_path opened_file
  init in_header r w = do
    (init_in, r') ← read_obj h {T = InitIn} r
    let unsupported =
        not (init_in.major == kernel_version) || ltb init_in.minor min_kernel_minor_version
    if unsupported then reply_error h in_header.unique w Libc.eio else do
      let attr = with_ino default_root_dir_inode (opened_file dir (slash ∷ []))
      allocate h attr
      allocate h attr
      map_path h (slash ∷ []) default_root_dir_inode
      let out = record default_init_out {
        major = kernel_version;
        minor = kernel_minor_version;
        max_write = max_buffer_size;
      }
      reply_ok h (some out) none in_header.unique w

  unfoldable pub destory : Fs h ℕ
  destory = pure 0

  unfoldable pub forget : InHeader → Fs h ℕ
  forget in_header = pure 0

  unfoldable pub lookup : InHeader → Reader h.volatile → Writer h.volatile → Fs h ℕ
  unfolding with_path or_reply do_get_metadata reply_ok
  lookup in_header r w = with_path h in_header in_header_byte_valued.size_of r w λ path.
      or_reply h in_header.unique w Libc.enoent (do_get_metadata h path)
        λ metadata. reply_ok h (some (entry_out metadata.metadata)) none in_header.unique w

  unfoldable pub getattr : InHeader → Reader h.volatile → Writer h.volatile → Fs h ℕ
  unfolding or_reply opened_path do_get_metadata reply_ok
  getattr in_header r w =
      or_reply h in_header.unique w Libc.enoent (opened_path h in_header.nodeid) λ path.
        or_reply h in_header.unique w Libc.enoent (do_get_metadata h path)
          λ metadata. reply_ok h (some (attr_out metadata.metadata)) none in_header.unique w

  unfoldable pub setattr : InHeader → Reader h.volatile → Writer h.volatile → Fs h ℕ
  unfolding getattr
  setattr in_header r w = getattr in_header r w

  unfoldable pub create : InHeader → Reader h.volatile → Writer h.volatile → Fs h ℕ
  unfolding read_obj with_path allocate map_path opened_file or_reply do_set_writer reply_ok
  create in_header r w = do
    (create_in, r') ← read_obj h {T = CreateIn} r
    let fixed = in_header_byte_valued.size_of + create_in_byte_valued.size_of
    with_path h in_header fixed r' w λ path. do
      let attr = opened_file file path
      inode ← allocate h attr
      map_path h path inode
      let created = (with_ino inode attr).metadata
      or_reply h in_header.unique w Libc.enoent (do_set_writer h path create_in.flags) λ _.
          reply_ok h (some (entry_out created))
            (some (open_out_byte_valued.as_slice default_open_out)) in_header.unique w

  unfoldable pub unlink : InHeader → Reader h.volatile → Writer h.volatile → Fs h ℕ
  unfolding with_path or_reply do_delete unmap_path reply_ok
  unlink in_header r w = with_path h in_header in_header_byte_valued.size_of r w λ path.
      or_reply h in_header.unique w Libc.enoent (do_delete h path)
        λ _. do unmap_path h path; reply_ok h {T = ℕ} none none in_header.unique w

  unfoldable pub release : InHeader → Reader h.volatile → Writer h.volatile → Fs h ℕ
  unfolding or_reply opened_path do_release_writer reply_ok
  release in_header r w =
      or_reply h in_header.unique w Libc.enoent (opened_path h in_header.nodeid) λ path.
        or_reply h in_header.unique w Libc.eio (do_release_writer h path)
          λ _. reply_ok h {T = ℕ} none none in_header.unique w

  unfoldable pub flush : InHeader → Reader h.volatile → Writer h.volatile → Fs h ℕ
  unfolding or_reply opened_path reply_ok
  flush in_header r w =
      or_reply h in_header.unique w Libc.enoent (opened_path h in_header.nodeid)
        λ _. reply_ok h {T = ℕ} none none in_header.unique w

  unfoldable pub open_file : InHeader → Reader h.volatile → Writer h.volatile → Fs h ℕ
  unfolding read_obj or_reply opened_path do_set_writer reply_ok
  open_file in_header r w = do
    (open_in, r') ← read_obj h {T = OpenIn} r
    or_reply h in_header.unique w Libc.enoent (opened_path h in_header.nodeid) λ path.
        or_reply h in_header.unique w Libc.enoent (do_set_writer h path open_in.flags)
          λ _. reply_ok h (some default_open_out) none in_header.unique w
