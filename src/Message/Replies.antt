-- ===== src/Message/Replies.antt =====
-- The bytes of the structures that the program answers with.
use ovfs.Prelude.{ℕ, ◌≡◌, refl, List, ◌++◌, length, drop}
use ovfs.Message.Layout.{le, field, ByteValued}
use ovfs.Message.Structs.{
  Attr, OutHeader, InitOut, AttrOut, EntryOut, DirEntryOut, OpenOut, WriteOut,
}

unfoldable pub attr_bytes : Attr → List ℕ
attr_bytes a =
    le 8 a.ino
    ++ (le 8 a.size
        ++ (le 8 a.blocks
            ++ (le 8 a.atime
                ++ (le 8 a.mtime
                    ++ (le 8 a.ctime
                        ++ (le 4 a.atimensec
                            ++ (le 4 a.mtimensec
                                ++ (le 4 a.ctimensec
                                    ++ (le 4 a.mode
                                        ++ (le 4 a.nlink
                                            ++ (le 4 a.uid
                                                ++ (le 4 a.gid
                                                    ++ (le 4 a.rdev
                                                        ++ (le 4 a.blksize
                                                            ++ (le 4 a.flags)))))))))))))))

unfoldable pub attr_of : List ℕ → Attr
attr_of bytes = record {
  ino = field 0 8 bytes;
  size = field 8 8 bytes;
  blocks = field 16 8 bytes;
  atime = field 24 8 bytes;
  mtime = field 32 8 bytes;
  ctime = field 40 8 bytes;
  atimensec = field 48 4 bytes;
  mtimensec = field 52 4 bytes;
  ctimensec = field 56 4 bytes;
  mode = field 60 4 bytes;
  nlink = field 64 4 bytes;
  uid = field 68 4 bytes;
  gid = field 72 4 bytes;
  rdev = field 76 4 bytes;
  blksize = field 80 4 bytes;
  flags = field 84 4 bytes;
}

pub length-attr_bytes : (a : Attr) → length (attr_bytes a) ≡ 88
unfolding attr_bytes le
length-attr_bytes a = refl

instance abbrev pub attr_byte_valued : ByteValued Attr
attr_byte_valued = record {
  size_of = 88;
  as_slice = attr_bytes;
  from_slice = attr_of;
  length-as_slice = length-attr_bytes;
}

unfoldable pub out_header_bytes : OutHeader → List ℕ
out_header_bytes a = le 4 a.len ++ (le 4 a.error ++ (le 8 a.unique))

unfoldable pub out_header_of : List ℕ → OutHeader
out_header_of bytes = record {
  len = field 0 4 bytes;
  error = field 4 4 bytes;
  unique = field 8 8 bytes;
}

pub length-out_header_bytes : (a : OutHeader) → length (out_header_bytes a) ≡ 16
unfolding out_header_bytes le
length-out_header_bytes a = refl

instance abbrev pub out_header_byte_valued : ByteValued OutHeader
out_header_byte_valued = record {
  size_of = 16;
  as_slice = out_header_bytes;
  from_slice = out_header_of;
  length-as_slice = length-out_header_bytes;
}

unfoldable pub init_out_bytes : InitOut → List ℕ
init_out_bytes a =
    le 4 a.major
    ++ (le 4 a.minor
        ++ (le 4 a.max_readahead
            ++ (le 4 a.flags
                ++ (le 2 a.max_background
                    ++ (le 2 a.congestion_threshold
                        ++ (le 4 a.max_write
                            ++ (le 4 a.time_gran
                                ++ (le 2 a.max_pages
                                    ++ (le 2 a.map_alignment
                                        ++ (le 4 a.flags2
                                            ++ (le 4 a.unused0
                                                ++ (le 4 a.unused1
                                                    ++ (le 4 a.unused2
                                                        ++ (le 4 a.unused3
                                                            ++ (le 4 a.unused4
                                                            ++ (le 4 a.unused5
                                                            ++ (le 4 a.unused6)))))))))))))))))

unfoldable pub init_out_of : List ℕ → InitOut
init_out_of bytes = record {
  major = field 0 4 bytes;
  minor = field 4 4 bytes;
  max_readahead = field 8 4 bytes;
  flags = field 12 4 bytes;
  max_background = field 16 2 bytes;
  congestion_threshold = field 18 2 bytes;
  max_write = field 20 4 bytes;
  time_gran = field 24 4 bytes;
  max_pages = field 28 2 bytes;
  map_alignment = field 30 2 bytes;
  flags2 = field 32 4 bytes;
  unused0 = field 36 4 bytes;
  unused1 = field 40 4 bytes;
  unused2 = field 44 4 bytes;
  unused3 = field 48 4 bytes;
  unused4 = field 52 4 bytes;
  unused5 = field 56 4 bytes;
  unused6 = field 60 4 bytes;
}

pub length-init_out_bytes : (a : InitOut) → length (init_out_bytes a) ≡ 64
unfolding init_out_bytes le
length-init_out_bytes a = refl

instance abbrev pub init_out_byte_valued : ByteValued InitOut
init_out_byte_valued = record {
  size_of = 64;
  as_slice = init_out_bytes;
  from_slice = init_out_of;
  length-as_slice = length-init_out_bytes;
}

unfoldable pub attr_out_bytes : AttrOut → List ℕ
unfolding attr_bytes
attr_out_bytes a =
    le 8 a.attr_valid ++ (le 4 a.attr_valid_nsec ++ (le 4 a.dummy ++ (attr_bytes a.attr)))

unfoldable pub attr_out_of : List ℕ → AttrOut
unfolding attr_of
attr_out_of bytes = record {
  attr_valid = field 0 8 bytes;
  attr_valid_nsec = field 8 4 bytes;
  dummy = field 12 4 bytes;
  attr = attr_of (drop 16 bytes);
}

pub length-attr_out_bytes : (a : AttrOut) → length (attr_out_bytes a) ≡ 104
unfolding attr_out_bytes le
length-attr_out_bytes a = refl

instance abbrev pub attr_out_byte_valued : ByteValued AttrOut
attr_out_byte_valued = record {
  size_of = 104;
  as_slice = attr_out_bytes;
  from_slice = attr_out_of;
  length-as_slice = length-attr_out_bytes;
}

unfoldable pub entry_out_bytes : EntryOut → List ℕ
unfolding attr_bytes
entry_out_bytes a =
    le 8 a.nodeid
    ++ (le 8 a.generation
        ++ (le 8 a.entry_valid
            ++ (le 8 a.attr_valid
                ++ (le 4 a.entry_valid_nsec ++ (le 4 a.attr_valid_nsec ++ (attr_bytes a.attr))))))

unfoldable pub entry_out_of : List ℕ → EntryOut
unfolding attr_of
entry_out_of bytes = record {
  nodeid = field 0 8 bytes;
  generation = field 8 8 bytes;
  entry_valid = field 16 8 bytes;
  attr_valid = field 24 8 bytes;
  entry_valid_nsec = field 32 4 bytes;
  attr_valid_nsec = field 36 4 bytes;
  attr = attr_of (drop 40 bytes);
}

pub length-entry_out_bytes : (a : EntryOut) → length (entry_out_bytes a) ≡ 128
unfolding entry_out_bytes le
length-entry_out_bytes a = refl

instance abbrev pub entry_out_byte_valued : ByteValued EntryOut
entry_out_byte_valued = record {
  size_of = 128;
  as_slice = entry_out_bytes;
  from_slice = entry_out_of;
  length-as_slice = length-entry_out_bytes;
}

unfoldable pub dir_entry_out_bytes : DirEntryOut → List ℕ
dir_entry_out_bytes a = le 8 a.ino ++ (le 8 a.off ++ (le 4 a.namelen ++ (le 4 a.type_)))

unfoldable pub dir_entry_out_of : List ℕ → DirEntryOut
dir_entry_out_of bytes = record {
  ino = field 0 8 bytes;
  off = field 8 8 bytes;
  namelen = field 16 4 bytes;
  type_ = field 20 4 bytes;
}

pub length-dir_entry_out_bytes : (a : DirEntryOut) → length (dir_entry_out_bytes a) ≡ 24
unfolding dir_entry_out_bytes le
length-dir_entry_out_bytes a = refl

instance abbrev pub dir_entry_out_byte_valued : ByteValued DirEntryOut
dir_entry_out_byte_valued = record {
  size_of = 24;
  as_slice = dir_entry_out_bytes;
  from_slice = dir_entry_out_of;
  length-as_slice = length-dir_entry_out_bytes;
}

unfoldable pub open_out_bytes : OpenOut → List ℕ
open_out_bytes a = le 8 a.fh ++ (le 4 a.open_flags ++ (le 4 a.padding))

unfoldable pub open_out_of : List ℕ → OpenOut
open_out_of bytes = record {
  fh = field 0 8 bytes;
  open_flags = field 8 4 bytes;
  padding = field 12 4 bytes;
}

pub length-open_out_bytes : (a : OpenOut) → length (open_out_bytes a) ≡ 16
unfolding open_out_bytes le
length-open_out_bytes a = refl

instance abbrev pub open_out_byte_valued : ByteValued OpenOut
open_out_byte_valued = record {
  size_of = 16;
  as_slice = open_out_bytes;
  from_slice = open_out_of;
  length-as_slice = length-open_out_bytes;
}

unfoldable pub write_out_bytes : WriteOut → List ℕ
write_out_bytes a = le 4 a.size ++ (le 4 a.padding)

unfoldable pub write_out_of : List ℕ → WriteOut
write_out_of bytes = record { size = field 0 4 bytes; padding = field 4 4 bytes }

pub length-write_out_bytes : (a : WriteOut) → length (write_out_bytes a) ≡ 8
unfolding write_out_bytes le
length-write_out_bytes a = refl

instance abbrev pub write_out_byte_valued : ByteValued WriteOut
write_out_byte_valued = record {
  size_of = 8;
  as_slice = write_out_bytes;
  from_slice = write_out_of;
  length-as_slice = length-write_out_bytes;
}
