-- ===== src/Tests/Answers.antt =====
-- A mounted file system with one writer, and the theorems about its answers.
use ovfs.Prelude.{ℕ, ◌+◌, ◌≡◌, ◌≢◌, refl, ap, ◌∙◌, arith, none, some, inr, List, [], ◌∷◌, length}
use ovfs.Prelude.Outcome.{ok, err}
use ovfs.Prelude.Dict.{lookup, insert, remove}
use ovfs.Prelude.Tests.{bytes_eq}
use ovfs.Prelude.Exec.{◌>>=◌}
use ovfs.Libc
use ovfs.Memory.{Memory, span}
use ovfs.Volatile.{cells}
use ovfs.Chain.Flat.{IsValid, room}
use ovfs.Chain.Consume.{IsAfter}
use ovfs.Stream.{Reader, Writer}
use ovfs.Message.{InHeader, Opcode, number, try_from}
use ovfs.Message.Layout.{le, un_le, u8_byte_valued}
use ovfs.Message.Requests.{in_header_bytes, in_header_of}
use ovfs.Message.Replies.{out_header_bytes, attr_out_byte_valued}
use ovfs.Message.Opcodes.{try_from_iff}
use ovfs.Filesystem.Text.{slash}
use ovfs.Filesystem.State.{
  OpenedFile, FileType, opened_file, World, errno, on_storage, allocate, map_path,
}
use ovfs.Filesystem.Operations.{
  with_ino, with_size, do_get_metadata, inode_of, inode_or_new, do_write,
}
use ovfs.Filesystem.Reply.{DirEntry, reply_ok, reply_error, reply_add_dir_entry}
use ovfs.Filesystem.Reply.Bytes.{
  after_reply, error_header, ok_bytes, ok_content, reply_ok_lem, reply_error_lem,
}
use ovfs.Filesystem.Reply.Entries.{round_up, entry_bytes, reply_add_dir_entry_lem}
use ovfs.Filesystem.Request.{attr_out}
use ovfs.Filesystem.Handlers.{getattr, release}
use ovfs.Filesystem.Handlers.Release.{release_lem, release-no_writer}
use ovfs.Filesystem.Handlers.Attributes.{getattr_lem, getattr-unknown}
use ovfs.Filesystem.Dispatch.{handle_message}
use ovfs.Filesystem.Dispatch.Answers.{
  header_of, handle_message-short, handle_message-too_long, handle_message-unknown,
}
use ovfs.Filesystem.Order.{do_write_lem, do_write-refused}
use ovfs.Filesystem.Table.{path_of, Coherent}
use ovfs.Filesystem.Table.Coherent.{IsCoherent-map}
use ovfs.Filesystem.Table.Inodes.{known_file, Names, do_get_metadata-Names, do_get_metadata-known}
use ovfs.Tests.Guest.{guest, guest-IsVolatile}
use ovfs.Tests.Mounted.{
  host, table-IsSlab, memory_of, init_reader, reply_writer, init_header, one_file,
}

abbrev pub root_file : OpenedFile
root_file = with_ino 1 (opened_file FileType.dir (slash ∷ []))

-- "/f"
abbrev pub file_path : List ℕ
file_path = slash ∷ 102 ∷ []

abbrev pub served : Memory → World host
served memory = record {
  memory = memory;
  opened_files = root_file ∷ root_file ∷ [];
  opened_files_map = insert (slash ∷ []) 1 [];
  opened_files_writer = insert file_path (record { writer = tt; written = 3 }) [];
  storage = tt;
}

abbrev pub idle : World host
idle = served (memory_of [])

empty_map :
    (path : List ℕ) (inode : ℕ)
    → lookup path [] ≡ some inode
    → path_of host idle.opened_files inode ≡ some path
unfolding lookup
empty_map path inode e = cc

idle-Coherent : Coherent host idle
unfolding opened_file
idle-Coherent =
    IsCoherent-map host table-IsSlab (slash ∷ []) 1 refl (record { root = refl; known = empty_map })

abbrev found : OpenedFile
found = with_ino 2 (with_size 3 (opened_file FileType.file file_path))

abbrev after_lookup : World host
after_lookup = (do_get_metadata host file_path idle).1

looked_up : do_get_metadata host file_path idle ≡ (ok found, after_lookup)
unfolding do_get_metadata on_storage inode_of inode_or_new allocate map_path lookup insert remove
    bytes_eq opened_file ◌>>=◌
looked_up = refl

do_get_metadata-Names_example : Names host file_path after_lookup found.metadata.ino
do_get_metadata-Names_example =
    do_get_metadata-Names host table-IsSlab file_path idle {f = found} {s' = after_lookup}
      idle-Coherent looked_up

root_known : lookup (slash ∷ []) idle.opened_files_map ≡ some 1
unfolding lookup insert bytes_eq
root_known = refl

root_metadata :
    do_get_metadata host (slash ∷ []) idle
    ≡ (ok (with_ino 1 (with_size 3 (opened_file FileType.file (slash ∷ [])))), idle)
unfolding do_get_metadata on_storage inode_of inode_or_new lookup insert bytes_eq opened_file ◌>>=◌
root_metadata = refl

do_get_metadata-known_example :
    do_get_metadata host (slash ∷ []) idle ≡ (ok (known_file (slash ∷ []) 1 one_file), idle)
do_get_metadata-known_example =
    do_get_metadata-known host (slash ∷ []) idle {inode = 1} {metadata = one_file} {storage = tt}
      root_known refl

pub writer-IsValid : IsValid guest reply_writer.buffer
unfolding cells span
writer-IsValid = record { fits = omega arith }

pub writer-room : room guest reply_writer.buffer ≡ 144
unfolding cells span
writer-room = refl

reply_error_example : reply_error host 7 reply_writer Libc.enoent idle ≡ (
  ok 16,
  after_reply host guest-IsVolatile reply_writer
      (out_header_bytes (error_header host guest-IsVolatile 7 Libc.enoent))
      idle,
)
reply_error_example =
    reply_error_lem host guest-IsVolatile 7 Libc.enoent reply_writer idle writer-IsValid
      (omega (arith, writer-room))

reply_ok_example : reply_ok host {T = ℕ} (some 5) (some (1 ∷ 2 ∷ [])) 7 reply_writer idle ≡ (
  ok (0 + (16 + length (ok_content host guest-IsVolatile {T = ℕ} (some 5) (some (1 ∷ 2 ∷ []))))),
  after_reply host guest-IsVolatile reply_writer
      (ok_bytes host guest-IsVolatile {T = ℕ} (some 5) (some (1 ∷ 2 ∷ [])) 7)
      idle,
)
unfolding le
reply_ok_example =
    reply_ok_lem host guest-IsVolatile {T = ℕ} (some 5) (some (1 ∷ 2 ∷ [])) 7 reply_writer idle
      writer-IsValid (omega (arith, writer-room))

abbrev entry : DirEntry
entry = record { ino = 2; off = 1; type_ = 8; name = 102 ∷ [] }

reply_add_dir_entry_example :
    (w' : Writer guest) × (reply_add_dir_entry host reply_writer entry idle ≡ (
      ok (round_up 25, w'),
      after_reply host guest-IsVolatile reply_writer (entry_bytes entry) idle,
    ))
    × IsAfter guest reply_writer.buffer (round_up 25) w'.buffer
reply_add_dir_entry_example =
    reply_add_dir_entry_lem host guest-IsVolatile reply_writer entry idle writer-IsValid
      (omega (arith, writer-room))

abbrev pub root_request : InHeader
root_request = record init_header { nodeid = 1 }

getattr_example : getattr host root_request init_reader reply_writer idle ≡ (
  ok 120,
  after_reply host guest-IsVolatile reply_writer
      (ok_bytes host guest-IsVolatile
        (some
          (attr_out (with_ino 1 (with_size 3 (opened_file FileType.file (slash ∷ [])))).metadata))
        none
        7)
      idle,
)
unfolding opened_file
getattr_example =
    getattr_lem host guest-IsVolatile root_request init_reader reply_writer idle writer-IsValid
      (omega (arith, writer-room)) {f = root_file} refl root_metadata

getattr-unknown_example :
    getattr host (record init_header { nodeid = 9 }) init_reader reply_writer idle ≡ (
      ok 16,
      after_reply host guest-IsVolatile reply_writer
          (out_header_bytes (error_header host guest-IsVolatile 7 Libc.enoent))
          idle,
    )
getattr-unknown_example =
    getattr-unknown host guest-IsVolatile (record init_header { nodeid = 9 }) init_reader
      reply_writer idle writer-IsValid (omega (arith, writer-room)) refl

pub reader-IsValid : IsValid guest init_reader.buffer
unfolding cells span
reader-IsValid = record { fits = omega arith }

pub reader-room : room guest init_reader.buffer ≡ 56
unfolding cells span
reader-room = refl

abbrev cut_reader : Reader guest
cut_reader = record { buffer = record { buffers = (0, 39) ∷ []; bytes_consumed = 0 } }

cut-IsValid : IsValid guest cut_reader.buffer
unfolding cells span
cut-IsValid = record { fits = omega arith }

cut-room : room guest cut_reader.buffer ≡ 39
unfolding cells span
cut-room = refl

handle_message-short_example :
    handle_message host cut_reader reply_writer idle ≡ (err (errno host Libc.eio), idle)
handle_message-short_example =
    handle_message-short host guest-IsVolatile cut_reader reply_writer idle cut-IsValid
      (omega (arith, cut-room))

abbrev long_header : InHeader
long_header = record init_header { len = 2000000 }

abbrev long_state : World host
long_state = served (memory_of (in_header_bytes long_header))

long_read : header_of host guest-IsVolatile init_reader long_state ≡ long_header
unfolding in_header_bytes in_header_of le un_le cells span
long_read = refl

handle_message-too_long_example : handle_message host init_reader reply_writer long_state ≡ (
  ok 16,
  after_reply host guest-IsVolatile reply_writer
      (out_header_bytes (
        error_header host guest-IsVolatile
          (header_of host guest-IsVolatile init_reader long_state).unique
          Libc.eio))
      long_state,
)
handle_message-too_long_example =
    handle_message-too_long host guest-IsVolatile init_reader reply_writer long_state reader-IsValid
      (omega (arith, reader-room)) writer-IsValid (omega (arith, writer-room))
      (omega (arith, ap (λ (a : InHeader). a.len) long_read))

abbrev odd_header : InHeader
odd_header = record init_header { opcode = 99 }

abbrev odd_state : World host
odd_state = served (memory_of (in_header_bytes odd_header))

odd_read : header_of host guest-IsVolatile init_reader odd_state ≡ odd_header
unfolding in_header_bytes in_header_of le un_le cells span
odd_read = refl

ninety_nine : (opcode : Opcode) → number opcode ≢ 99
unfolding try_from
ninety_nine opcode e = let decoded = (try_from_iff 99 opcode).1 e in cc

handle_message-unknown_example : handle_message host init_reader reply_writer odd_state ≡ (
  ok 16,
  after_reply host guest-IsVolatile reply_writer
      (out_header_bytes (
        error_header host guest-IsVolatile
          (header_of host guest-IsVolatile init_reader odd_state).unique
          Libc.enosys))
      odd_state,
)
handle_message-unknown_example =
    handle_message-unknown host guest-IsVolatile init_reader reply_writer odd_state reader-IsValid
      (omega (arith, reader-room)) writer-IsValid (omega (arith, writer-room))
      (omega (arith, ap (λ (a : InHeader). a.len) odd_read))
      (λ opcode e. ninety_nine opcode (e ∙ ap (λ (a : InHeader). a.opcode) odd_read))

writer_there :
    lookup file_path idle.opened_files_writer ≡ some (record { writer = tt; written = 3 })
unfolding lookup insert bytes_eq
writer_there = refl

do_write_example :
    (s' : World host) × (do_write host file_path 3 (1 ∷ 2 ∷ []) idle ≡ (ok 2, s'))
    × (lookup file_path s'.opened_files_writer ≡ some (record { writer = tt; written = 5 }))
    × (s'.storage ≡ tt)
do_write_example =
    do_write_lem host file_path (1 ∷ 2 ∷ []) idle {writer = tt} {storage = tt} writer_there refl

do_write-refused_example :
    do_write host file_path 4 (1 ∷ 2 ∷ []) idle ≡ (err (errno host Libc.eio), idle)
do_write-refused_example =
    do_write-refused host file_path 4 (1 ∷ 2 ∷ []) idle
      (inr (record { writer = tt; written = 3 }, writer_there, λ e. absurd (omega arith)))

unwritten : lookup (slash ∷ []) idle.opened_files_writer ≡ none
unfolding lookup insert remove bytes_eq
unwritten = refl

release-no_writer_example : release host root_request init_reader reply_writer idle ≡ (
  ok 16,
  after_reply host guest-IsVolatile reply_writer
      (out_header_bytes (error_header host guest-IsVolatile 7 Libc.eio))
      idle,
)
unfolding opened_file
release-no_writer_example =
    release-no_writer host guest-IsVolatile root_request init_reader reply_writer idle
      writer-IsValid (omega (arith, writer-room)) {f = root_file} refl unwritten

abbrev writing : World host
writing = record idle {
  opened_files_writer = insert (slash ∷ []) (record { writer = tt; written = 3 }) [];
}

root_writer :
    lookup (slash ∷ []) writing.opened_files_writer ≡ some (record { writer = tt; written = 3 })
unfolding lookup insert bytes_eq
root_writer = refl

release_example :
    (s' : World host) × (release host root_request init_reader reply_writer writing ≡ (
      ok 16,
      after_reply host guest-IsVolatile reply_writer
          (ok_bytes host guest-IsVolatile {T = ℕ} none none 7)
          s',
    ))
    × (lookup (slash ∷ []) s'.opened_files_writer ≡ none)
    × (s'.storage ≡ tt)
unfolding opened_file
release_example =
    release_lem host guest-IsVolatile root_request init_reader reply_writer writing writer-IsValid
      (omega (arith, writer-room)) {f = root_file} refl {iw = record { writer = tt; written = 3 }}
      {writer = tt} {storage = tt} root_writer refl
