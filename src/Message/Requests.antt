-- ===== src/Message/Requests.antt =====
-- The bytes of the structures that the kernel sends.
use ovfs.Prelude.{ℕ, ◌≡◌, refl, List, ◌++◌, length}
use ovfs.Message.Layout.{le, field, ByteValued}
use ovfs.Message.Structs.{InHeader, InitIn, CreateIn, MkdirIn, OpenIn, WriteIn, ReadIn}

unfoldable pub in_header_bytes : InHeader → List ℕ
in_header_bytes a =
    le 4 a.len
    ++ (le 4 a.opcode
        ++ (le 8 a.unique
            ++ (le 8 a.nodeid
                ++ (le 4 a.uid
                    ++ (le 4 a.gid ++ (le 4 a.pid ++ (le 2 a.total_extlen ++ (le 2 a.padding))))))))

unfoldable pub in_header_of : List ℕ → InHeader
in_header_of bytes = record {
  len = field 0 4 bytes;
  opcode = field 4 4 bytes;
  unique = field 8 8 bytes;
  nodeid = field 16 8 bytes;
  uid = field 24 4 bytes;
  gid = field 28 4 bytes;
  pid = field 32 4 bytes;
  total_extlen = field 36 2 bytes;
  padding = field 38 2 bytes;
}

pub length-in_header_bytes : (a : InHeader) → length (in_header_bytes a) ≡ 40
unfolding in_header_bytes le
length-in_header_bytes a = refl

instance abbrev pub in_header_byte_valued : ByteValued InHeader
in_header_byte_valued = record {
  size_of = 40;
  as_slice = in_header_bytes;
  from_slice = in_header_of;
  length-as_slice = length-in_header_bytes;
}

unfoldable pub init_in_bytes : InitIn → List ℕ
init_in_bytes a = le 4 a.major ++ (le 4 a.minor ++ (le 4 a.max_readahead ++ (le 4 a.flags)))

unfoldable pub init_in_of : List ℕ → InitIn
init_in_of bytes = record {
  major = field 0 4 bytes;
  minor = field 4 4 bytes;
  max_readahead = field 8 4 bytes;
  flags = field 12 4 bytes;
}

pub length-init_in_bytes : (a : InitIn) → length (init_in_bytes a) ≡ 16
unfolding init_in_bytes le
length-init_in_bytes a = refl

instance abbrev pub init_in_byte_valued : ByteValued InitIn
init_in_byte_valued = record {
  size_of = 16;
  as_slice = init_in_bytes;
  from_slice = init_in_of;
  length-as_slice = length-init_in_bytes;
}

unfoldable pub create_in_bytes : CreateIn → List ℕ
create_in_bytes a = le 4 a.flags ++ (le 4 a.mode ++ (le 4 a.umask ++ (le 4 a.open_flags)))

unfoldable pub create_in_of : List ℕ → CreateIn
create_in_of bytes = record {
  flags = field 0 4 bytes;
  mode = field 4 4 bytes;
  umask = field 8 4 bytes;
  open_flags = field 12 4 bytes;
}

pub length-create_in_bytes : (a : CreateIn) → length (create_in_bytes a) ≡ 16
unfolding create_in_bytes le
length-create_in_bytes a = refl

instance abbrev pub create_in_byte_valued : ByteValued CreateIn
create_in_byte_valued = record {
  size_of = 16;
  as_slice = create_in_bytes;
  from_slice = create_in_of;
  length-as_slice = length-create_in_bytes;
}

unfoldable pub mkdir_in_bytes : MkdirIn → List ℕ
mkdir_in_bytes a = le 4 a.mode ++ (le 4 a.umask)

unfoldable pub mkdir_in_of : List ℕ → MkdirIn
mkdir_in_of bytes = record { mode = field 0 4 bytes; umask = field 4 4 bytes }

pub length-mkdir_in_bytes : (a : MkdirIn) → length (mkdir_in_bytes a) ≡ 8
unfolding mkdir_in_bytes le
length-mkdir_in_bytes a = refl

instance abbrev pub mkdir_in_byte_valued : ByteValued MkdirIn
mkdir_in_byte_valued = record {
  size_of = 8;
  as_slice = mkdir_in_bytes;
  from_slice = mkdir_in_of;
  length-as_slice = length-mkdir_in_bytes;
}

unfoldable pub open_in_bytes : OpenIn → List ℕ
open_in_bytes a = le 4 a.flags ++ (le 4 a.open_flags)

unfoldable pub open_in_of : List ℕ → OpenIn
open_in_of bytes = record { flags = field 0 4 bytes; open_flags = field 4 4 bytes }

pub length-open_in_bytes : (a : OpenIn) → length (open_in_bytes a) ≡ 8
unfolding open_in_bytes le
length-open_in_bytes a = refl

instance abbrev pub open_in_byte_valued : ByteValued OpenIn
open_in_byte_valued = record {
  size_of = 8;
  as_slice = open_in_bytes;
  from_slice = open_in_of;
  length-as_slice = length-open_in_bytes;
}

unfoldable pub write_in_bytes : WriteIn → List ℕ
write_in_bytes a =
    le 8 a.fh
    ++ (le 8 a.offset
        ++ (le 4 a.size
            ++ (le 4 a.write_flags ++ (le 8 a.lock_owner ++ (le 4 a.flags ++ (le 4 a.padding))))))

unfoldable pub write_in_of : List ℕ → WriteIn
write_in_of bytes = record {
  fh = field 0 8 bytes;
  offset = field 8 8 bytes;
  size = field 16 4 bytes;
  write_flags = field 20 4 bytes;
  lock_owner = field 24 8 bytes;
  flags = field 32 4 bytes;
  padding = field 36 4 bytes;
}

pub length-write_in_bytes : (a : WriteIn) → length (write_in_bytes a) ≡ 40
unfolding write_in_bytes le
length-write_in_bytes a = refl

instance abbrev pub write_in_byte_valued : ByteValued WriteIn
write_in_byte_valued = record {
  size_of = 40;
  as_slice = write_in_bytes;
  from_slice = write_in_of;
  length-as_slice = length-write_in_bytes;
}

unfoldable pub read_in_bytes : ReadIn → List ℕ
read_in_bytes a =
    le 8 a.fh
    ++ (le 8 a.offset
        ++ (le 4 a.size
            ++ (le 4 a.read_flags ++ (le 8 a.lock_owner ++ (le 4 a.flags ++ (le 4 a.padding))))))

unfoldable pub read_in_of : List ℕ → ReadIn
read_in_of bytes = record {
  fh = field 0 8 bytes;
  offset = field 8 8 bytes;
  size = field 16 4 bytes;
  read_flags = field 20 4 bytes;
  lock_owner = field 24 8 bytes;
  flags = field 32 4 bytes;
  padding = field 36 4 bytes;
}

pub length-read_in_bytes : (a : ReadIn) → length (read_in_bytes a) ≡ 40
unfolding read_in_bytes le
length-read_in_bytes a = refl

instance abbrev pub read_in_byte_valued : ByteValued ReadIn
read_in_byte_valued = record {
  size_of = 40;
  as_slice = read_in_bytes;
  from_slice = read_in_of;
  length-as_slice = length-read_in_bytes;
}
