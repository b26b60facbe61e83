-- ===== src/Tests/Mounted.antt =====
-- A file system over a table that is a list and a storage of one file, mounted by an `init` request.
use ovfs.Prelude.{
  ℕ, zero, suc, ◌≡◌, ◌≢◌, refl, sym, ap, ◌∙◌, Option, none, some, List, [], ◌∷◌, ◌++◌, length,
  get_elem?, true,
}
use ovfs.Prelude.Outcome.{ok}
use ovfs.Memory.{Memory, span, store}
use ovfs.Chain.{consume, gather, checked_add, advance}
use ovfs.Stream.{
  Reader, Writer, read_exact, read_exact_loop, read, read_slices, write_all, write_all_loop, write,
  write_slices, bytes_written,
}
use ovfs.Message.{InHeader, try_from}
use ovfs.Message.Requests.{in_header_bytes, init_in_bytes, in_header_of, init_in_of}
use ovfs.Message.Replies.{out_header_bytes, init_out_bytes}
use ovfs.Message.Layout.{le, un_le}
use ovfs.Filesystem.Host.{Slab, IsSlab, SecondKey, Operator, EntryMode, Metadata}
use ovfs.Filesystem.Text.{slash}
use ovfs.Filesystem.State.{
  OpenedFile, Host, World, new, from_memory, on_memory, allocate, map_path, opened_file,
}
use ovfs.Filesystem.Reply.{put, put_some, reply_ok}
use ovfs.Filesystem.Request.{read_obj}
use ovfs.Filesystem.Handlers
use ovfs.Prelude.Exec.{◌>>=◌}
use ovfs.Filesystem.Dispatch.{handle, dispatch, handle_message}
use ovfs.Filesystem.Table.{path_of}
use ovfs.Filesystem.Table.Run.{mounted, serves, mapped_inode-path}
use ovfs.Prelude.Tests.{bytes_eq}
use ovfs.Prelude.Dict.{lookup, insert, remove}
use ovfs.Tests.Guest.{guest}

abbrev pub table : Slab OpenedFile
table = record {
  Slots = List OpenedFile;
  new = [];
  insert = λ s f. some (length s, s ++ (f ∷ []));
  get = λ s k. get_elem? s k;
}

get_elem?-end :
    (s : List OpenedFile) (f : OpenedFile) → get_elem? (s ++ (f ∷ [])) (length s) ≡ some f
get_elem?-end [] f = refl
get_elem?-end (g ∷ s) f = get_elem?-end s f

get_elem?-before :
    (s : List OpenedFile) (f : OpenedFile) (j : ℕ)
    → length s ≢ j
    → get_elem? (s ++ (f ∷ [])) j ≡ get_elem? s j
get_elem?-before [] f zero h = absurd (h refl)
get_elem?-before [] f (suc j) h = refl
get_elem?-before (g ∷ s) f zero h = refl
get_elem?-before (g ∷ s) f (suc j) h = get_elem?-before s f j (λ e. h (ap suc e))

get_elem?-length : (s : List OpenedFile) → get_elem? s (length s) ≡ none
get_elem?-length [] = refl
get_elem?-length (g ∷ s) = get_elem?-length s

abbrev fst_or : ℕ → Option (ℕ × List OpenedFile) → ℕ
fst_or d none = d
fst_or d (some p) = p.0

abbrev snd_or : List OpenedFile → Option (ℕ × List OpenedFile) → List OpenedFile
snd_or d none = d
snd_or d (some p) = p.1

added :
    (s : List OpenedFile) (f : OpenedFile) {k : ℕ} {s' : List OpenedFile}
    → table.insert s f ≡ some (k, s')
    → (k ≡ length s) × (s' ≡ s ++ (f ∷ []))
added s f e = (ap (λ o. fst_or 0 o) (sym e), ap (λ o. snd_or s o) (sym e))

pub table-IsSlab : IsSlab table
table-IsSlab = record {
  get-new = λ k. refl;
  get-insert = λ s f e. let (at, same) = added s f e in rw (at, same) (get_elem?-end s f);
  get-insert_ne = λ s f j e ne.
      let (at, same) = added s f e in rw same (get_elem?-before s f j (λ h. ne (at ∙ h)));
  insert_free = λ s f e. let (at, same) = added s f e in rw at (get_elem?-length s);
}

table-SecondKey : SecondKey table
table-SecondKey = record {
  second_entry = λ a b e. let (at, same) = added [] a e in (a ∷ b ∷ [], rw same refl);
}

abbrev pub one_file : Metadata
one_file = record { mode = EntryMode.file; content_length = 3 }

abbrev storage : Operator
storage = record {
  State = Unit;
  Writer = Unit;
  can_write = true;
  can_append = true;
  stat = λ path s. (ok one_file, s);
  delete = λ path s. (ok tt, s);
  writer_with = λ path append s. (ok tt, s);
  write_from = λ bytes s. (ok tt, s);
  close = λ s. (ok tt, s);
  read_with = λ path offset s. (ok (104 ∷ 105 ∷ 33 ∷ []), s);
  create_dir = λ path s. (ok tt, s);
  list = λ path s. (ok (record { name = 97 ∷ []; metadata = one_file } ∷ []), s);
}

abbrev pub host : Host
host = record { volatile = guest; slab = table; core = storage; strerror = λ e. none }

-- The request at address 0.
abbrev pub init_header : InHeader
init_header = record {
  len = 56;
  opcode = 26;
  unique = 7;
  nodeid = 0;
  uid = 0;
  gid = 0;
  pid = 1;
  total_extlen = 0;
  padding = 0;
}

abbrev pub init_bytes : List ℕ
init_bytes =
    in_header_bytes init_header
    ++ init_in_bytes (record { major = 7; minor = 38; max_readahead = 0; flags = 0 })

abbrev byte_or_zero : Option ℕ → ℕ
byte_or_zero none = 0
byte_or_zero (some b) = b

abbrev pub memory_of : List ℕ → Memory
memory_of bytes = λ a. byte_or_zero (get_elem? bytes a)

abbrev pub init_memory : Memory
init_memory = memory_of init_bytes

abbrev pub init_reader : Reader guest
init_reader = record { buffer = record { buffers = (0, 40) ∷ (40, 16) ∷ []; bytes_consumed = 0 } }

abbrev pub reply_writer : Writer guest
reply_writer = record {
  buffer = record { buffers = (1000, 16) ∷ (2000, 128) ∷ []; bytes_consumed = 0 };
}

abbrev mounted_state : World host
mounted_state = (handle_message host init_reader reply_writer (new host init_memory tt)).1

init_answer : (handle_message host init_reader reply_writer (new host init_memory tt)).0 ≡ ok 80
unfolding handle_message dispatch handle Handlers.init read_obj from_memory reply_ok put put_some
    on_memory allocate map_path opened_file ◌>>=◌ in_header_bytes init_in_bytes in_header_of
    init_in_of out_header_bytes init_out_bytes le un_le try_from read_exact read_exact_loop read
    read_slices consume gather checked_add advance span store write_all write_all_loop write
    write_slices bytes_written lookup insert remove bytes_eq
init_answer = refl

root_mapped : lookup (slash ∷ []) mounted_state.opened_files_map ≡ some 1
unfolding handle_message dispatch handle Handlers.init read_obj from_memory reply_ok put put_some
    on_memory allocate map_path opened_file ◌>>=◌ in_header_bytes init_in_bytes in_header_of
    init_in_of out_header_bytes init_out_bytes le un_le try_from read_exact read_exact_loop read
    read_slices consume gather checked_add advance span store write_all write_all_loop write
    write_slices bytes_written lookup insert remove bytes_eq
root_mapped = refl

mapped_inode-path_example : path_of host mounted_state.opened_files 1 ≡ some (slash ∷ [])
mapped_inode-path_example =
    mapped_inode-path host table-IsSlab table-SecondKey tt (slash ∷ []) 1
      (serves init_reader reply_writer (mounted init_memory)) root_mapped
