-- ===== src/Filesystem/State.antt =====
-- The state of src/filesystem.rs: `OpenedFile`, `InnerWriter`, the tables of `Filesystem`, and the
-- calls that the handlers are made of. `World` holds guest memory and the storage too.
use ovfs.Prelude.{ℕ, ◌-◌, Option, none, some, List, [], String, ltb, if◌then◌else◌, bit_or}
use ovfs.Prelude.Outcome.{ok, err, panic, Exec, or_raise, map_err}
use ovfs.Prelude.Dict.{Dict, insert, remove}
use ovfs.Libc
use ovfs.Error.{Error, ErrorKind, IoError, from_errno, from_kind}
use ovfs.Memory.{Memory}
use ovfs.Volatile.{Volatile}
use ovfs.Stream.{IoResult}
use ovfs.Message.{Attr, default_attr}
use ovfs.Filesystem.Host.{Slab, Operator}

pub data FileType : Type 0 where
  dir file : FileType

pub record OpenedFile : Type 0 where
  pub path : List ℕ
  pub metadata : Attr

abbrev pub default_id : ℕ
default_id = 1000

abbrev pub default_dir_nlink : ℕ
default_dir_nlink = 2

abbrev pub default_file_nlink : ℕ
default_file_nlink = 1

abbrev pub default_mode : ℕ
default_mode = 0o755

-- `OpenedFile::new`
unfoldable pub opened_file : FileType → List ℕ → OpenedFile
opened_file dir path = record {
  path = path;
  metadata = record default_attr {
    uid = default_id;
    gid = default_id;
    nlink = default_dir_nlink;
    mode = bit_or Libc.s_ifdir default_mode;
  };
}
opened_file file path = record {
  path = path;
  metadata = record default_attr {
    uid = default_id;
    gid = default_id;
    nlink = default_file_nlink;
    mode = bit_or Libc.s_ifreg default_mode;
  };
}

-- The libraries that a file system runs over. `strerror` gives `none` for its null pointer.
pub record Host : Type 1 where
  pub volatile : Volatile
  pub slab : Slab OpenedFile
  pub core : Operator
  pub strerror : ℕ → Option String

pub record InnerWriter (h : Host) : Type 0 where
  pub writer : h.core.Writer
  pub written : ℕ

-- `Filesystem`, with the guest memory that its streams write and the state of the storage. The
-- handlers run one at a time, so a lock is always free when it is taken.
pub record World (h : Host) : Type 0 where
  pub memory : Memory
  pub opened_files : h.slab.Slots
  pub opened_files_map : Dict ℕ
  pub opened_files_writer : Dict (InnerWriter h)
  pub storage : h.core.State

module _ (h : Host) where
  -- A call of the file system.
  abbrev pub Fs : Type 0 → Type 0
  Fs A = Exec (World h) Error A

  -- `Error::from(errno)`
  abbrev pub errno : ℕ → Error
  errno n = from_errno h.strerror n

  -- A write to guest memory, whose error becomes EIO.
  unfoldable pub on_memory : {A : Type 0} → Exec Memory IoError A → Fs A
  on_memory m s =
      let r = or_raise (λ _. errno Libc.eio) m s.memory in (r.0, record s { memory = r.1 })

  -- A read of guest memory, whose error becomes EIO.
  unfoldable pub from_memory : {A : Type 0} → (Memory → IoResult A) → Fs A
  from_memory m s = (map_err (λ _. errno Libc.eio) (m s.memory), s)

  -- A call of the storage, `.map_err(|err| Error::from(err))?`.
  unfoldable pub on_storage : {A : Type 0} → Exec h.core.State ErrorKind A → Fs A
  on_storage m s =
      let r = m s.storage in (map_err (from_kind h.strerror) r.0, record s { storage = r.1 })

  -- `Filesystem::new`
  abbrev pub new : Memory → h.core.State → World h
  new memory storage = record {
    memory = memory;
    opened_files = h.slab.new;
    opened_files_map = [];
    opened_files_writer = [];
    storage = storage;
  }

  -- `self.opened_files.insert(file).expect(..)`
  unfoldable pub allocate : OpenedFile → Fs ℕ
  allocate f s = elim (h.slab.insert s.opened_files f) [
    | none ↦ (panic, s)
    | some (inode, slots) ↦ (ok inode, record s { opened_files = slots })
  ]

  -- `self.opened_files_map.lock().unwrap().insert(path, inode)`, `.remove(path)`
  unfoldable pub map_path : List ℕ → ℕ → Fs (Unit {0})
  unfolding insert
  map_path path inode s =
      (ok tt, record s { opened_files_map = insert path inode s.opened_files_map })

  unfoldable pub unmap_path : List ℕ → Fs (Unit {0})
  unmap_path path s = (ok tt, record s { opened_files_map = remove path s.opened_files_map })

  -- `self.opened_files.get(inode).map(|f| f.path.clone())`; `none` is answered ENOENT by every caller.
  unfoldable pub opened_path : ℕ → Fs (List ℕ)
  opened_path inode s = elim (h.slab.get s.opened_files inode) [
    | none ↦ (err (errno Libc.enoent), s)
    | some f ↦ (ok f.path, s)
  ]

  -- `usize` subtraction: below 0 it panics in a debug build. In a release build it wraps to a number
  -- above `isize::MAX`, and the `vec![0; name_len]` that follows panics.
  unfoldable pub sub_usize : ℕ → ℕ → Fs ℕ
  sub_usize a b s = if ltb a b then (panic, s) else (ok (a - b), s)
