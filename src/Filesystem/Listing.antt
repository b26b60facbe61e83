-- ===== src/Filesystem/Listing.antt =====
-- The listing that `readdir` of src/filesystem.rs puts into guest memory, and how a client reads it.
use ovfs.Prelude.{ℕ, zero, suc, ◌+◌, ◌-◌, ◌≤◌, ◌<◌, ◌≡◌, ◌%◌, ◌^◌, refl, sym, ap, ap₂, ◌∙◌, arith}
use ovfs.Prelude.{
  List, [], ◌∷◌, ◌++◌, length, take, drop, length-append, length-replicate, take-append_le,
  take_all, drop-append_ge, drop_at, length-drop, append_assoc, leb, if◌then◌else◌, replicate, true,
}
use ovfs.Prelude.Outcome.{ok}
use ovfs.Prelude.Exec.{>>=-at_ok, pure}
use ovfs.Memory.{store, store_again}
use ovfs.Volatile.{IsVolatile}
use ovfs.Chain.Flat.{room, left, IsValid}
use ovfs.Chain.Consume.{IsAfter-IsValid}
use ovfs.Stream.{Writer}
use ovfs.Stream.Write.{store_nothing}
use ovfs.Message.Layout.{un_le-le, le}
use ovfs.Message.{DirEntryOut}
use ovfs.Message.Replies.{dir_entry_out_bytes, dir_entry_out_of, length-dir_entry_out_bytes}
use ovfs.Filesystem.State.{Host, World}
use ovfs.Filesystem.Reply.{DirEntry, dir_entry_out, reply_add_dir_entry}
use ovfs.Filesystem.Reply.Bytes.{after_reply}
use ovfs.Filesystem.Reply.Entries.{round_up, entry_bytes, reply_add_dir_entry_lem}
use ovfs.Filesystem.DataHandlers.{put_entries}

abbrev pub listing_bytes : List DirEntry → List ℕ
listing_bytes [] = []
listing_bytes (entry ∷ entries) = entry_bytes entry ++ listing_bytes entries

-- A client reads an entry as long as there are the 24 bytes of its header, and steps over the padding.
unfoldable pub parse_entries : ℕ → List ℕ → List DirEntry
parse_entries zero bytes = []
parse_entries (suc fuel) bytes =
    let header = dir_entry_out_of bytes in
    let rest = parse_entries fuel (drop (round_up (24 + header.namelen)) bytes) in
    if leb 24 (length bytes)
    then record {
      ino = header.ino;
      off = header.off;
      type_ = header.type_;
      name = take header.namelen (drop 24 bytes);
    }
      ∷ rest
    else []

-- The fields of an entry fit their widths.
pub record EntryFits (entry : DirEntry) : Type 0 where
  pub ino : entry.ino < 2 ^ 64
  pub off : entry.off < 2 ^ 64
  pub type_ : entry.type_ < 2 ^ 32
  pub name : length entry.name < 2 ^ 32

length-entry_bytes :
    (entry : DirEntry) → length (entry_bytes entry) ≡ round_up (24 + length entry.name)
length-entry_bytes entry =
    let len : ℕ = 24 + length entry.name in
    let head : List ℕ = dir_entry_out_bytes (dir_entry_out entry) in
    omega (
      arith,
      length-append (head ++ entry.name) (replicate (round_up len - len) 0),
      length-append head entry.name,
      length-dir_entry_out_bytes (dir_entry_out entry),
      length-replicate {A = ℕ} (round_up len - len) 0,
    )

-- The header of an entry, whatever is behind it.
header-entry_bytes :
    (entry : DirEntry) (tail : List ℕ)
    → EntryFits entry
    → dir_entry_out_of (dir_entry_out_bytes (dir_entry_out entry) ++ tail) ≡ record {
      ino = entry.ino;
      off = entry.off;
      namelen = length entry.name;
      type_ = entry.type_;
    }
unfolding dir_entry_out_of dir_entry_out_bytes le
header-entry_bytes entry tail F =
    let low : length entry.name % 2 ^ 32 ≡ length entry.name = omega (arith, F.name) in
    λ i. record {
      ino = un_le-le 8 entry.ino F.ino i;
      off = un_le-le 8 entry.off F.off i;
      namelen = (un_le-le 4 (length entry.name % 2 ^ 32) (omega arith) ∙ low) i;
      type_ = un_le-le 4 entry.type_ F.type_ i;
    }

name-entry_bytes :
    (entry : DirEntry) (tail : List ℕ)
    → take
        (length entry.name)
        (drop 24 (dir_entry_out_bytes (dir_entry_out entry) ++ (entry.name ++ tail)))
      ≡ entry.name
unfolding dir_entry_out_bytes le
name-entry_bytes entry tail =
    take-append_le (length entry.name) entry.name tail (omega arith)
    ∙ take_all (length entry.name) entry.name (omega arith)

leb-true : (a b : ℕ) → a ≤ b → leb a b ≡ true
leb-true a b h = ground arith

drop-own : (n : ℕ) (xs ys : List ℕ) → n ≡ length xs → drop n (xs ++ ys) ≡ ys
drop-own n xs ys e =
    drop-append_ge n xs ys (omega (arith, e)) ∙ drop_at (n - length xs) 0 ys (omega (arith, e))

-- The bytes start with a header.
parse_entries-at :
    (fuel : ℕ) (bytes : List ℕ) (H : DirEntryOut)
    → dir_entry_out_of bytes ≡ H
    → leb 24 (length bytes) ≡ true
    → parse_entries (suc fuel) bytes
      ≡ record { ino = H.ino; off = H.off; type_ = H.type_; name = take H.namelen (drop 24 bytes) }
        ∷ parse_entries fuel (drop (round_up (24 + H.namelen)) bytes)
unfolding parse_entries
parse_entries-at fuel bytes H e enough = rw (enough, e) refl

entry_bytes-parts :
    (entry : DirEntry) (bytes : List ℕ)
    → entry_bytes entry ++ bytes
      ≡ dir_entry_out_bytes (dir_entry_out entry)
        ++ (entry.name
            ++ (replicate (round_up (24 + length entry.name) - (24 + length entry.name)) 0
                ++ bytes))
entry_bytes-parts entry bytes =
    let head : List ℕ = dir_entry_out_bytes (dir_entry_out entry) in
    append_assoc (head ++ entry.name) _ bytes ∙ append_assoc head entry.name _

-- One entry in front of some bytes.
parse_entries-entry :
    (fuel : ℕ) (entry : DirEntry) (bytes : List ℕ)
    → EntryFits entry
    → parse_entries (suc fuel) (entry_bytes entry ++ bytes) ≡ entry ∷ parse_entries fuel bytes
parse_entries-entry fuel entry bytes F =
    let parts = entry_bytes-parts entry bytes in
    let size : length (entry_bytes entry ++ bytes)
        ≡ round_up (24 + length entry.name) + length bytes =
      omega (arith, length-append (entry_bytes entry) bytes, length-entry_bytes entry) in
    parse_entries-at fuel (entry_bytes entry ++ bytes) _
      (ap dir_entry_out_of parts ∙ header-entry_bytes entry _ F)
      (leb-true 24 _ (omega (arith, size)))
    ∙ ap₂
        (λ name rest.
          (record { ino = entry.ino; off = entry.off; type_ = entry.type_; name = name })
          ∷ parse_entries fuel rest)
        (ap (λ b. take (length entry.name) (drop 24 b)) parts ∙ name-entry_bytes entry _)
        (drop-own _ (entry_bytes entry) bytes (sym (length-entry_bytes entry)))

abbrev pub EntriesFit : List DirEntry → Type 0
EntriesFit [] = Unit
EntriesFit (entry ∷ entries) = EntryFits entry × EntriesFit entries

parse_entries-nil : (fuel : ℕ) → parse_entries fuel [] ≡ []
unfolding parse_entries
parse_entries-nil zero = refl
parse_entries-nil (suc fuel) = refl

-- A client that reads entries by their headers, and steps over the padding, finds in the bytes of
-- a list of entries, written one behind the other, exactly these entries, if their fields fit
-- their widths and the client reads at least as many entries as there are.
pub parse_entries-listing_bytes :
    (fuel : ℕ) (entries : List DirEntry)
    → EntriesFit entries
    → length entries ≤ fuel
    → parse_entries fuel (listing_bytes entries) ≡ entries
parse_entries-listing_bytes fuel [] F enough = parse_entries-nil fuel
parse_entries-listing_bytes zero (entry ∷ entries) F enough = absurd (omega arith)
parse_entries-listing_bytes (suc fuel) (entry ∷ entries) (first, rest) enough =
    parse_entries-entry fuel entry (listing_bytes entries) first
    ∙ ap (λ l. entry ∷ l) (parse_entries-listing_bytes fuel entries rest (omega arith))

module _ (h : Host) (L : IsVolatile h.volatile) where
  -- On a valid writer with room for the bytes of a list of entries, put_entries writes these
  -- bytes, one entry behind the other, at the addresses of the writer, changes nothing else, and
  -- returns the given count and their number together.
  pub put_entries_lem :
      (w : Writer h.volatile) (total : ℕ) (entries : List DirEntry) (s : World h)
      → IsValid h.volatile w.buffer
      → length (listing_bytes entries) ≤ room h.volatile w.buffer
      → put_entries h w total entries s
        ≡ (ok (total + length (listing_bytes entries)), after_reply h L w (listing_bytes entries) s)
  unfolding put_entries pure
  put_entries_lem w total [] s valid fits =
      ap₂ (λ n m. (ok n, record s { memory = m })) (omega arith)
        (sym (store_nothing s.memory (left h.volatile w.buffer)))
  put_entries_lem w total (entry ∷ entries) s valid fits =
      let len : ℕ = round_up (24 + length entry.name) in
      let more : List ℕ = listing_bytes entries in
      let size = length-entry_bytes entry in
      let whole = length-append (entry_bytes entry) more in
      let (w1, e1, after) =
        reply_add_dir_entry_lem h L w entry s valid (omega (arith, size, whole)) in
      let fits1 : length more ≤ room h.volatile w1.buffer =
        omega (
          arith,
          ap length after.dropped,
          length-drop len (left h.volatile w.buffer),
          size,
          whole,
        ) in
      let valid1 = IsAfter-IsValid h.volatile (omega (arith, size, whole)) after valid in
      >>=-at_ok (reply_add_dir_entry h w entry) _ s e1
      ∙ put_entries_lem w1 (total + len) entries (after_reply h L w (entry_bytes entry) s) valid1
          fits1
      ∙ ap₂ (λ n m. (ok n, record s { memory = m })) (omega (arith, size, whole))
          (ap (λ l. store (store s.memory (left h.volatile w.buffer) (entry_bytes entry)) l more)
              (after.dropped
                ∙ drop_at len (length (entry_bytes entry)) (left h.volatile w.buffer) (sym size))
            ∙ store_again s.memory (left h.volatile w.buffer) (entry_bytes entry) more
                (omega (arith, whole)))
