-- ===== src/Message/Structs.antt =====
-- The structures of src/filesystem_message.rs, in `repr(C)` order. A field is a number, and its
-- width is in `Layout`; the array `unused` of `InitOut` is seven fields.
use ovfs.Prelude.{ℕ}

pub record Attr : Type 0 where
  pub ino : ℕ
  pub size : ℕ
  pub blocks : ℕ
  pub atime : ℕ
  pub mtime : ℕ
  pub ctime : ℕ
  pub atimensec : ℕ
  pub mtimensec : ℕ
  pub ctimensec : ℕ
  pub mode : ℕ
  pub nlink : ℕ
  pub uid : ℕ
  pub gid : ℕ
  pub rdev : ℕ
  pub blksize : ℕ
  pub flags : ℕ

pub record InHeader : Type 0 where
  pub len : ℕ
  pub opcode : ℕ
  pub unique : ℕ
  pub nodeid : ℕ
  pub uid : ℕ
  pub gid : ℕ
  pub pid : ℕ
  pub total_extlen : ℕ
  pub padding : ℕ

pub record OutHeader : Type 0 where
  pub len : ℕ
  pub error : ℕ
  pub unique : ℕ

pub record InitIn : Type 0 where
  pub major : ℕ
  pub minor : ℕ
  pub max_readahead : ℕ
  pub flags : ℕ

pub record InitOut : Type 0 where
  pub major : ℕ
  pub minor : ℕ
  pub max_readahead : ℕ
  pub flags : ℕ
  pub max_background : ℕ
  pub congestion_threshold : ℕ
  pub max_write : ℕ
  pub time_gran : ℕ
  pub max_pages : ℕ
  pub map_alignment : ℕ
  pub flags2 : ℕ
  pub unused0 : ℕ
  pub unused1 : ℕ
  pub unused2 : ℕ
  pub unused3 : ℕ
  pub unused4 : ℕ
  pub unused5 : ℕ
  pub unused6 : ℕ

pub record AttrOut : Type 0 where
  pub attr_valid : ℕ
  pub attr_valid_nsec : ℕ
  pub dummy : ℕ
  pub attr : Attr

pub record EntryOut : Type 0 where
  pub nodeid : ℕ
  pub generation : ℕ
  pub entry_valid : ℕ
  pub attr_valid : ℕ
  pub entry_valid_nsec : ℕ
  pub attr_valid_nsec : ℕ
  pub attr : Attr

pub record DirEntryOut : Type 0 where
  pub ino : ℕ
  pub off : ℕ
  pub namelen : ℕ
  pub type_ : ℕ

pub record CreateIn : Type 0 where
  pub flags : ℕ
  pub mode : ℕ
  pub umask : ℕ
  pub open_flags : ℕ

pub record MkdirIn : Type 0 where
  pub mode : ℕ
  pub umask : ℕ

pub record OpenIn : Type 0 where
  pub flags : ℕ
  pub open_flags : ℕ

pub record OpenOut : Type 0 where
  pub fh : ℕ
  pub open_flags : ℕ
  pub padding : ℕ

pub record WriteIn : Type 0 where
  pub fh : ℕ
  pub offset : ℕ
  pub size : ℕ
  pub write_flags : ℕ
  pub lock_owner : ℕ
  pub flags : ℕ
  pub padding : ℕ

pub record WriteOut : Type 0 where
  pub size : ℕ
  pub padding : ℕ

pub record ReadIn : Type 0 where
  pub fh : ℕ
  pub offset : ℕ
  pub size : ℕ
  pub read_flags : ℕ
  pub lock_owner : ℕ
  pub flags : ℕ
  pub padding : ℕ

-- `Default::default()` of the structures that the program fills in part; an `Attr` is zeroed.

abbrev pub default_attr : Attr
default_attr = record {
  ino = 0;
  size = 0;
  blocks = 0;
  atime = 0;
  mtime = 0;
  ctime = 0;
  atimensec = 0;
  mtimensec = 0;
  ctimensec = 0;
  mode = 0;
  nlink = 0;
  uid = 0;
  gid = 0;
  rdev = 0;
  blksize = 0;
  flags = 0;
}

abbrev pub default_init_out : InitOut
default_init_out = record {
  major = 0;
  minor = 0;
  max_readahead = 0;
  flags = 0;
  max_background = 0;
  congestion_threshold = 0;
  max_write = 0;
  time_gran = 0;
  max_pages = 0;
  map_alignment = 0;
  flags2 = 0;
  unused0 = 0;
  unused1 = 0;
  unused2 = 0;
  unused3 = 0;
  unused4 = 0;
  unused5 = 0;
  unused6 = 0;
}

abbrev pub default_attr_out : AttrOut
default_attr_out = record { attr_valid = 0; attr_valid_nsec = 0; dummy = 0; attr = default_attr }

abbrev pub default_entry_out : EntryOut
default_entry_out = record {
  nodeid = 0;
  generation = 0;
  entry_valid = 0;
  attr_valid = 0;
  entry_valid_nsec = 0;
  attr_valid_nsec = 0;
  attr = default_attr;
}

abbrev pub default_open_out : OpenOut
default_open_out = record { fh = 0; open_flags = 0; padding = 0 }

abbrev pub default_write_out : WriteOut
default_write_out = record { size = 0; padding = 0 }
