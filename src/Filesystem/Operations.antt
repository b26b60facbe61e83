-- ===== src/Filesystem/Operations.antt =====
-- `check_flags` and the `do_` functions of src/filesystem.rs: each awaits the storage and keeps the
-- tables of inodes and writers.
use ovfs.Prelude.{ℕ, ◌+◌, ◌%◌, ◌^◌, Bool, true, false, not, ◌&&◌, ◌||◌, Option, none, some}
use ovfs.Prelude.{List, [], ◌∷◌, ◌==◌, if◌then◌else◌, length, bit_and}
use ovfs.Prelude.Outcome.{ok, Exec, map_err}
use ovfs.Prelude.Exec.{pure, raise, ok_or, ◌>>=◌, ◌>>◌}
use ovfs.Prelude.Dict.{lookup, insert, remove}
use ovfs.Libc
use ovfs.Error.{ErrorKind, from_kind}
use ovfs.Filesystem.Host.{EntryMode, Entry}
use ovfs.Filesystem.Text.{join_path, dir_path, shown_name}
use ovfs.Filesystem.State.{
  FileType, dir, file, OpenedFile, opened_file, Host, InnerWriter, Fs, errno, on_storage, allocate,
  map_path,
}
use ovfs.Filesystem.Reply.{DirEntry}

-- `flags & mask != 0`
abbrev has_flag : ℕ → ℕ → Bool
has_flag flags mask = not (bit_and flags mask == 0)

abbrev pub file_type_of : EntryMode → FileType
file_type_of EntryMode.dir = dir
file_type_of _ = file

abbrev pub default_dir_type_in_dir_entry : ℕ
default_dir_type_in_dir_entry = 4

abbrev pub default_file_type_in_dir_entry : ℕ
default_file_type_in_dir_entry = 8

abbrev type_in_dir_entry : EntryMode → ℕ
type_in_dir_entry EntryMode.dir = default_dir_type_in_dir_entry
type_in_dir_entry _ = default_file_type_in_dir_entry

-- `attr.metadata.size = size`, `attr.metadata.ino = ino`
abbrev pub with_size : ℕ → OpenedFile → OpenedFile
with_size size f = record f { metadata = record f.metadata { size = size } }

abbrev pub with_ino : ℕ → OpenedFile → OpenedFile
with_ino ino f = record f { metadata = record f.metadata { ino = ino } }

module _ (h : Host) where
  -- The flags that open a file for writing, and for appending.
  unfoldable pub check_flags : ℕ → Fs h (Bool × Bool)
  check_flags flags =
      let is_trunc = has_flag flags Libc.o_trunc || has_flag flags Libc.o_creat in
      let is_append = has_flag flags Libc.o_append in
      let mode = bit_and flags Libc.o_accmode in
      let is_write = mode == Libc.o_wronly || mode == Libc.o_rdwr || is_append in
      if is_trunc && not h.core.can_write
      then raise (errno h Libc.eacces)
      else if is_append && not h.core.can_append
      then raise (errno h Libc.eacces)
      else pure (is_write, is_append)

  -- The inode of a path: the one in the table, or a new one for `f`.
  unfoldable pub inode_or_new : List ℕ → OpenedFile → Option ℕ → Fs h ℕ
  unfolding allocate map_path
  inode_or_new path f (some inode) = pure inode
  inode_or_new path f none = do inode ← allocate h f; map_path h path inode; pure inode

  unfoldable pub inode_of : List ℕ → OpenedFile → Fs h ℕ
  unfolding inode_or_new lookup
  inode_of path f s = inode_or_new path f (lookup path s.opened_files_map) s

  unfoldable pub do_get_metadata : List ℕ → Fs h OpenedFile
  unfolding on_storage inode_of opened_file
  do_get_metadata path = do
    metadata ← on_storage h (h.core.stat path)
    let attr = with_size metadata.content_length (opened_file (file_type_of metadata.mode) path)
    inode ← inode_of path attr
    pure (with_ino inode attr)

  -- Where an appending writer starts: at the end of the file.
  unfoldable pub start_of : Bool → List ℕ → Fs h ℕ
  unfolding on_storage
  start_of true path = do metadata ← on_storage h (h.core.stat path); pure metadata.content_length
  start_of false path = pure 0

  -- `opened_file_writer.insert(path, inner_writer)`
  unfoldable pub put_writer : List ℕ → InnerWriter h → Fs h (Unit {0})
  unfolding insert
  put_writer path w s =
      (ok tt, record s { opened_files_writer = insert path w s.opened_files_writer })

  unfoldable pub open_writer : List ℕ → Bool → Fs h (Unit {0})
  unfolding on_storage start_of put_writer
  open_writer path is_append = do
    writer ← on_storage h (h.core.writer_with path is_append)
    written ← start_of is_append path
    put_writer path (record { writer = writer; written = written })

  unfoldable pub do_set_writer : List ℕ → ℕ → Fs h (Unit {0})
  unfolding check_flags open_writer
  do_set_writer path flags = do
    (is_write, is_append) ← check_flags flags
    if is_write then open_writer path is_append else pure tt

  -- `opened_file_writer.get_mut(path).ok_or(Error::from(libc::EIO))?`
  unfoldable pub writer_of : List ℕ → Fs h (InnerWriter h)
  unfolding lookup
  writer_of path s = ok_or (errno h Libc.eio) (lookup path s.opened_files_writer) s

  -- A call of the writer of a path, which changes the writer in the table and the storage.
  unfoldable pub on_writer :
      List ℕ
      → InnerWriter h
      → Exec (h.core.Writer × h.core.State) ErrorKind (Unit {0})
      → Fs h (Unit {0})
  unfolding insert
  on_writer path w m s =
      let (r, (writer, storage)) = m (w.writer, s.storage) in
      (
        map_err (from_kind h.strerror) r,
        record s {
          storage = storage;
          opened_files_writer = insert path (record w { writer = writer }) s.opened_files_writer;
        },
      )

  unfoldable pub drop_writer : List ℕ → Fs h (Unit {0})
  unfolding remove
  drop_writer path s = (ok tt, record s { opened_files_writer = remove path s.opened_files_writer })

  unfoldable pub do_release_writer : List ℕ → Fs h (Unit {0})
  unfolding writer_of on_writer drop_writer
  do_release_writer path = do w ← writer_of path; on_writer path w h.core.close; drop_writer path

  unfoldable pub do_delete : List ℕ → Fs h (Unit {0})
  unfolding on_storage
  do_delete path = on_storage h (h.core.delete path)

  unfoldable pub do_read : List ℕ → ℕ → Fs h (List ℕ)
  unfolding on_storage
  do_read path offset = on_storage h (h.core.read_with path offset)

  -- `inner_writer.written += len as u64`
  unfoldable pub count_written : List ℕ → ℕ → Fs h (Unit {0})
  unfolding writer_of put_writer
  count_written path len = do
    w ← writer_of path
    put_writer path (record w { written = (w.written + len) % 2 ^ 64 })

  unfoldable pub do_write : List ℕ → ℕ → List ℕ → Fs h ℕ
  unfolding writer_of on_writer count_written
  do_write path offset bytes = do
    w ← writer_of path
    if not (offset == w.written) then raise (errno h Libc.eio) else do
      on_writer path w (h.core.write_from bytes)
      count_written path (length bytes)
      pure (length bytes)

  unfoldable pub do_create_dir : List ℕ → Fs h (Unit {0})
  unfolding on_storage dir_path
  do_create_dir path = on_storage h (h.core.create_dir (dir_path path))

  -- The closure of `map`, on the item at index `i` of the listing of `path`.
  unfoldable pub dir_entry : List ℕ → ℕ → Entry → Fs h DirEntry
  unfolding join_path opened_file inode_of shown_name
  dir_entry path i entry = do
    let entry_path = join_path path entry.name
    let file_type = file_type_of entry.metadata.mode
    let attr = with_size entry.metadata.content_length (opened_file file_type entry_path)
    inode ← inode_of entry_path attr
    pure (record {
      ino = inode;
      off = i + 1;
      type_ = type_in_dir_entry entry.metadata.mode;
      name = shown_name entry.name;
    })

  unfoldable pub dir_entries : List ℕ → ℕ → List Entry → Fs h (List DirEntry)
  unfolding dir_entry
  dir_entries path i [] = pure []
  dir_entries path i (entry ∷ entries) = do
    first ← dir_entry path i entry
    rest ← dir_entries path (i + 1) entries
    pure (first ∷ rest)

  unfoldable pub do_readdir : List ℕ → Fs h (List DirEntry)
  unfolding on_storage dir_entries dir_path
  do_readdir path = do
    entries ← on_storage h (h.core.list (dir_path path))
    dir_entries (dir_path path) 0 entries
