-- ===== src/Filesystem/Request.antt =====
-- The constants of src/filesystem.rs, and what its handlers read from a request.
use ovfs.Prelude.{ℕ, ◌^◌, Option, none, some}
use ovfs.Prelude.{List}
use ovfs.Prelude.Exec.{pure, raise, ◌>>=◌}
use ovfs.Libc
use ovfs.Stream.{Reader, Writer, read_exact}
use ovfs.Message.{InHeader, EntryOut, AttrOut, Attr, default_entry_out, default_attr_out}
use ovfs.Message.Layout.{ByteValued}
use ovfs.Message.Requests.{
  in_header_byte_valued, init_in_byte_valued, create_in_byte_valued, mkdir_in_byte_valued,
  open_in_byte_valued, write_in_byte_valued, read_in_byte_valued,
}
use ovfs.Message.Replies.{
  out_header_byte_valued, init_out_byte_valued, attr_out_byte_valued, entry_out_byte_valued,
  open_out_byte_valued, write_out_byte_valued,
}
use ovfs.Filesystem.Text.{bytes_to_str, join_path}
use ovfs.Filesystem.State.{Host, Fs, errno, from_memory, opened_path, sub_usize}
use ovfs.Filesystem.Reply.{or_reply}

abbrev pub kernel_version : ℕ
kernel_version = 7

abbrev pub kernel_minor_version : ℕ
kernel_minor_version = 38

abbrev pub min_kernel_minor_version : ℕ
min_kernel_minor_version = 27

abbrev pub buffer_header_size : ℕ
buffer_header_size = 4096

abbrev pub max_buffer_size : ℕ
max_buffer_size = 2 ^ 20

abbrev pub default_ttl : ℕ
default_ttl = 1

abbrev pub default_root_dir_inode : ℕ
default_root_dir_inode = 1

-- The entry that `lookup`, `create` and `mkdir` answer with, and the attributes of `getattr`.
abbrev pub entry_out : Attr → EntryOut
entry_out attr = record default_entry_out {
  nodeid = attr.ino;
  entry_valid = default_ttl;
  attr_valid = default_ttl;
  attr = attr;
}

abbrev pub attr_out : Attr → AttrOut
attr_out attr = record default_attr_out { attr_valid = default_ttl; attr = attr }

module _ (h : Host) where
  -- `r.read_obj().map_err(|_| Error::from(libc::EIO))?`
  unfoldable pub read_obj :
      {T : Type 0} ⦃b : ByteValued T⦄ → Reader h.volatile → Fs h (T × Reader h.volatile)
  unfolding from_memory
  read_obj ⦃b⦄ r = do
    (bytes, r') ← from_memory h (λ mem. read_exact h.volatile mem r b.size_of)
    pure (b.from_slice bytes, r')

  -- The name behind the `fixed` bytes of a request: `none` if its bytes are no name.
  unfoldable pub read_name : InHeader → ℕ → Reader h.volatile → Fs h (Option (List ℕ))
  unfolding from_memory sub_usize
  read_name in_header fixed r = do
    name_len ← sub_usize h in_header.len fixed
    (buf, r') ← from_memory h (λ mem. read_exact h.volatile mem r name_len)
    pure (bytes_to_str buf)

  unfoldable pub some_name : Option (List ℕ) → Fs h (List ℕ)
  some_name none = raise (errno h Libc.einval)
  some_name (some name) = pure name

  -- The path that a request names: the name behind its `fixed` bytes, under the path of `nodeid`.
  unfoldable pub with_path :
      InHeader → ℕ → Reader h.volatile → Writer h.volatile → (List ℕ → Fs h ℕ) → Fs h ℕ
  unfolding read_name some_name or_reply opened_path join_path
  with_path in_header fixed r w k = do
    read ← read_name in_header fixed r
    or_reply h in_header.unique w Libc.eio (some_name read) λ name.
        or_reply h in_header.unique w Libc.enoent (opened_path h in_header.nodeid)
          λ parent_path. k (join_path parent_path name)
