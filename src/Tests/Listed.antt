-- ===== src/Tests/Listed.antt =====
-- A listing that `readdir` answers, and the bytes that `read` does.
use ovfs.Prelude.{◌≡◌, ◌+◌, ◌%◌, ◌^◌, refl, ap, ◌∙◌, arith, List, [], ◌∷◌, length, take, drop}
use ovfs.Prelude.Outcome.{Outcome, ok, err, panic, hang}
use ovfs.Prelude.Exec.{◌>>=◌}
use ovfs.Prelude.Tests.{bytes_eq}
use ovfs.Prelude.Dict.{lookup, insert, remove}
use ovfs.Memory.{span, store, load}
use ovfs.Volatile.{cells}
use ovfs.Chain.Flat.{left}
use ovfs.Message.Layout.{le, un_le}
use ovfs.Message.Requests.{read_in_of}
use ovfs.Message.Replies.{out_header_bytes, dir_entry_out_bytes}
use ovfs.Filesystem.Text.{slash}
use ovfs.Filesystem.State.{World, on_storage, allocate, map_path, opened_file}
use ovfs.Filesystem.Operations.{do_readdir, dir_entries, dir_entry, inode_of, inode_or_new}
use ovfs.Filesystem.Text.{join_path, dir_path, shown_name, ends_with_slash}
use ovfs.Filesystem.Reply.{DirEntry}
use ovfs.Filesystem.DataHandlers.{readdir}
use ovfs.Filesystem.Handlers.ReadDir.{listing_header, readdir_lem}
use ovfs.Filesystem.Listing.{listing_bytes}
use ovfs.Error.{Error}
use ovfs.Stream.{Writer, writer_split_at}
use ovfs.Chain.{split_at, position, divide, cut}
use ovfs.Buffer.Copy.{NonEmpty}
use ovfs.Filesystem.Operations.{do_read}
use ovfs.Filesystem.Reply.{size_of_header}
use ovfs.Filesystem.DataHandlers.{read}
use ovfs.Filesystem.Handlers.Reads.{read-do_read}
use mathlib.Core.Path.{subst}
use ovfs.Tests.Guest.{guest, guest-IsVolatile}
use ovfs.Tests.Mounted.{host, init_reader, reply_writer}
use ovfs.Tests.Answers.{
  idle, root_request, root_file, writer-IsValid, writer-room, reader-IsValid, reader-room,
}

abbrev found_entries : List DirEntry
found_entries = (record { ino = 2; off = 1; type_ = 8; name = 97 ∷ [] }) ∷ []

abbrev after_listing : World host
after_listing = (do_readdir host (slash ∷ []) idle).1

listed : do_readdir host (slash ∷ []) idle ≡ (ok found_entries, after_listing)
unfolding do_readdir on_storage dir_entries dir_entry inode_of inode_or_new allocate map_path lookup
    insert remove bytes_eq opened_file ◌>>=◌ join_path dir_path shown_name ends_with_slash
listed = refl

found-size : length (listing_bytes found_entries) ≡ 32
unfolding le dir_entry_out_bytes
found-size = refl

from_start : (read_in_of (load idle.memory (take 40 (left guest init_reader.buffer)))).offset ≡ 0
unfolding read_in_of cells span un_le
from_start = refl

readdir_example : readdir host root_request init_reader reply_writer idle ≡ (
  ok ((16 + length (listing_bytes found_entries)) % 2 ^ 32),
  record after_listing {
    memory =
        store
          (store after_listing.memory
            (drop 16 (left guest reply_writer.buffer))
            (listing_bytes found_entries))
          (take 16 (left guest reply_writer.buffer))
          (out_header_bytes
            (listing_header host guest-IsVolatile 7 (length (listing_bytes found_entries))));
  },
)
unfolding opened_file
readdir_example =
    readdir_lem host guest-IsVolatile root_request init_reader reply_writer idle {f = root_file}
      {entries = found_entries} {s' = after_listing} reader-IsValid (omega (arith, reader-room))
      writer-IsValid (omega (arith, writer-room, found-size)) refl listed
      (omega (arith, from_start))

-- The part behind the header.
abbrev body_or : Writer guest → Outcome Error (Writer guest × Writer guest) → Writer guest
body_or w (ok halves) = halves.1
body_or w (err e) = w
body_or w panic = w
body_or w hang = w

body-NonEmpty :
    (head body : Writer guest)
    → writer_split_at guest size_of_header reply_writer ≡ ok (head, body)
    → NonEmpty guest body.buffer.buffers
unfolding writer_split_at split_at position divide cut
body-NonEmpty head body e =
    subst (λ (w : Writer guest). NonEmpty guest w.buffer.buffers) (ap (body_or reply_writer) e)
      (omega arith, tt)

read_done : do_read host (slash ∷ []) 0 idle ≡ (ok (104 ∷ 105 ∷ 33 ∷ []), idle)
unfolding do_read on_storage
read_done = refl

read-do_read_example : read host root_request init_reader reply_writer idle ≡ (
  ok ((16 + 3) % 2 ^ 32),
  record idle {
    memory =
        store
          (store idle.memory (drop 16 (left guest reply_writer.buffer)) (104 ∷ 105 ∷ 33 ∷ []))
          (take 16 (left guest reply_writer.buffer))
          (out_header_bytes (listing_header host guest-IsVolatile 7 3));
  },
)
unfolding opened_file
read-do_read_example =
    read-do_read host guest-IsVolatile root_request init_reader reply_writer idle {f = root_file}
      {bytes = 104 ∷ 105 ∷ 33 ∷ []} {s' = idle} reader-IsValid (omega (arith, reader-room))
      writer-IsValid (omega (arith, writer-room)) body-NonEmpty refl
      (ap (λ n. do_read host (slash ∷ []) n idle) from_start ∙ read_done)
