-- ===== src/Tests/Written.antt =====
-- A storage whose writers keep their bytes, and the theorems about writes and listings.
use ovfs.Prelude.{
  ℕ, ◌≡◌, refl, sym, ap, ◌+◌, arith, none, Bool, true, false, ltb, if◌then◌else◌, List, [], ◌∷◌,
  ◌++◌, length,
}
use ovfs.Prelude.Outcome.{ok, err, Exec}
use ovfs.Error.{ErrorKind, other_kind}
use ovfs.Prelude.Dict.{lookup, insert}
use ovfs.Prelude.Tests.{bytes_eq}
use ovfs.Volatile.{cells}
use ovfs.Memory.{span}
use ovfs.Chain.Flat.{IsValid, room}
use ovfs.Message.Layout.{le}
use ovfs.Message.Replies.{dir_entry_out_bytes}
use ovfs.Filesystem.Host.{Operator}
use ovfs.Filesystem.State.{Host, World}
use ovfs.Filesystem.Reply.{DirEntry}
use ovfs.Filesystem.Reply.Bytes.{after_reply}
use ovfs.Filesystem.Append.{
  Appends, Represents, AllStored, append_all, do_writes, do_writes-refines,
}
use ovfs.Filesystem.Listing.{
  listing_bytes, parse_entries, parse_entries-listing_bytes, put_entries_lem,
}
use ovfs.Filesystem.DataHandlers.{put_entries}
use ovfs.Tests.Guest.{guest, guest-IsVolatile}
use ovfs.Tests.Mounted.{host, table, one_file, memory_of, reply_writer}

-- It takes no more than four bytes at a time.
abbrev short_write : Bool → List ℕ → Exec (List ℕ × Unit {0}) ErrorKind (Unit {0})
short_write too_long bytes s =
    if too_long then (err other_kind, s) else (ok tt, (s.0 ++ bytes, s.1))

content-short_write :
    (too_long : Bool) (bytes : List ℕ) (s : List ℕ × Unit {0}) {s' : List ℕ × Unit {0}}
    → short_write too_long bytes s ≡ (ok tt, s')
    → s'.0 ≡ s.0 ++ bytes
content-short_write true bytes s e = cc
content-short_write false bytes s e = sym (ap (λ o. o.1.0) e)

abbrev log_storage : Operator
log_storage = record {
  State = Unit;
  Writer = List ℕ;
  can_write = true;
  can_append = true;
  stat = λ path s. (ok one_file, s);
  delete = λ path s. (ok tt, s);
  writer_with = λ path append s. (ok [], s);
  write_from = λ bytes s. short_write (ltb 4 (length bytes)) bytes s;
  close = λ s. (ok tt, s);
  read_with = λ path offset s. (ok [], s);
  create_dir = λ path s. (ok tt, s);
  list = λ path s. (ok [], s);
}

log_storage-Appends : Appends log_storage
log_storage-Appends = record {
  content = λ r. r.0;
  content-write_from = λ bytes r e. content-short_write (ltb 4 (length bytes)) bytes r e;
}

abbrev log_host : Host
log_host = record { volatile = guest; slab = table; core = log_storage; strerror = λ e. none }

-- "/f", of which three bytes were written.
abbrev log_path : List ℕ
log_path = 47 ∷ 102 ∷ []

abbrev three : List ℕ
three = 1 ∷ 2 ∷ 3 ∷ []

abbrev logged_world : World log_host
logged_world = record {
  memory = memory_of [];
  opened_files = [];
  opened_files_map = [];
  opened_files_writer = insert log_path (record { writer = three; written = 3 }) [];
  storage = tt;
}

three-Represents : Represents log_host log_storage-Appends log_path three logged_world
unfolding log_storage-Appends lookup insert bytes_eq
three-Represents = record {
  inner = record { writer = three; written = 3 };
  opened = refl;
  holds = refl;
  reached = refl;
}

-- The second write is not at the end.
abbrev writes : List (ℕ × List ℕ)
writes = (3, 4 ∷ []) ∷ (0, 5 ∷ []) ∷ (4, 6 ∷ 7 ∷ []) ∷ []

all_stored : AllStored log_host log_path writes logged_world
all_stored = ((λ w e at. refl), ((λ w e at. refl), ((λ w e at. refl), tt)))

do_writes-refines_example :
    ((do_writes log_host log_path writes logged_world).0 ≡ (append_all writes three).0)
    × Represents log_host log_storage-Appends log_path
        (append_all writes three).1
        (do_writes log_host log_path writes logged_world).1
do_writes-refines_example =
    do_writes-refines log_host log_storage-Appends log_path writes three logged_world
      three-Represents (omega arith) all_stored

appended : (append_all writes three).1 ≡ 1 ∷ 2 ∷ 3 ∷ 4 ∷ 6 ∷ 7 ∷ []
unfolding append_all
appended = refl

abbrev listing : List DirEntry
listing =
    (record { ino = 2; off = 1; type_ = 8; name = 102 ∷ [] })
    ∷ (record { ino = 3; off = 2; type_ = 4; name = 97 ∷ 98 ∷ [] })
    ∷ []

parse_entries-listing_bytes_example : parse_entries 2 (listing_bytes listing) ≡ listing
parse_entries-listing_bytes_example =
    parse_entries-listing_bytes 2 listing
      (
        record { ino = omega arith; off = omega arith; type_ = omega arith; name = omega arith },
        (
          record { ino = omega arith; off = omega arith; type_ = omega arith; name = omega arith },
          tt,
        ),
      )
      (omega arith)

listing_size : length (listing_bytes listing) ≡ 64
unfolding le dir_entry_out_bytes
listing_size = refl

listing_writer-IsValid : IsValid guest reply_writer.buffer
unfolding cells span
listing_writer-IsValid = record { fits = omega arith }

listing_writer-room : room guest reply_writer.buffer ≡ 144
unfolding cells span
listing_writer-room = refl

abbrev idle_world : World host
idle_world = record {
  memory = memory_of [];
  opened_files = [];
  opened_files_map = [];
  opened_files_writer = [];
  storage = tt;
}

put_entries_example : put_entries host reply_writer 0 listing idle_world ≡ (
  ok (0 + length (listing_bytes listing)),
  after_reply host guest-IsVolatile reply_writer (listing_bytes listing) idle_world,
)
put_entries_example =
    put_entries_lem host guest-IsVolatile reply_writer 0 listing idle_world listing_writer-IsValid
      (omega (arith, listing_size, listing_writer-room))
