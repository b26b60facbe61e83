-- ===== src/Filesystem/Reply.antt =====
-- `reply_ok`, `reply_error` and `reply_add_dir_entry` of src/filesystem.rs.
pub mod Bytes
pub mod Entries
use ovfs.Prelude.{ℕ, ◌+◌, ◌-◌, ◌%◌, ◌^◌, Option, none, some, List, [], ◌∷◌, bit_and, if◌then◌else◌}
use ovfs.Prelude.{length, take, replicate, ltb}
use ovfs.Prelude.Outcome.{Outcome, ok, err, panic, hang}
use ovfs.Prelude.Exec.{pure, lift, ◌>>=◌, ◌>>◌}
use ovfs.Error.{Error}
use ovfs.Stream.{Writer, write_all, bytes_written}
use ovfs.Message.{OutHeader, DirEntryOut}
use ovfs.Message.Layout.{ByteValued}
use ovfs.Message.Replies.{out_header_byte_valued, dir_entry_out_byte_valued}
use ovfs.Filesystem.State.{Host, Fs, on_memory}

pub record DirEntry : Type 0 where
  pub ino : ℕ
  pub off : ℕ
  pub type_ : ℕ
  pub name : List ℕ

abbrev pub dirent_padding : List ℕ
dirent_padding = replicate 8 0

abbrev pub size_of_header : ℕ
size_of_header = out_header_byte_valued.size_of

-- `-error` as an `i32`
abbrev pub neg_i32 : ℕ → ℕ
neg_i32 e = (2 ^ 32 - e) % 2 ^ 32

-- `(entry_len + 7) & !7`
abbrev pub aligned : ℕ → ℕ
aligned n = bit_and ((n + 7) % 2 ^ 64) (2 ^ 64 - 8)

abbrev pub dir_entry_out : DirEntry → DirEntryOut
dir_entry_out entry = record {
  ino = entry.ino;
  off = entry.off;
  namelen = length entry.name % 2 ^ 32;
  type_ = entry.type_;
}

module _ (h : Host) where
  -- `w.write_all(bytes).map_err(|_| Error::from(libc::EIO))?`
  unfoldable pub put : Writer h.volatile → List ℕ → Fs h (Writer h.volatile)
  unfolding on_memory
  put w bytes = on_memory h (write_all h.volatile w bytes)

  -- An optional part of a reply.
  unfoldable pub put_some : Writer h.volatile → Option (List ℕ) → Fs h (Writer h.volatile)
  unfolding put
  put_some w none = pure w
  put_some w (some bytes) = put w bytes

  abbrev pub optional_length : Option (List ℕ) → ℕ
  optional_length none = 0
  optional_length (some bytes) = length bytes

  abbrev pub bytes_of : {T : Type 0} ⦃b : ByteValued T⦄ → Option T → Option (List ℕ)
  bytes_of ⦃b⦄ none = none
  bytes_of ⦃b⦄ (some out) = some (b.as_slice out)

  abbrev pub size_of_some : {T : Type 0} ⦃b : ByteValued T⦄ → Option T → ℕ
  size_of_some ⦃b⦄ none = 0
  size_of_some ⦃b⦄ (some out) = b.size_of

  unfoldable pub reply_ok :
      {T : Type 0} ⦃b : ByteValued T⦄ → Option T → Option (List ℕ) → ℕ → Writer h.volatile → Fs h ℕ
  unfolding put put_some bytes_written
  reply_ok out body unique w = do
    let len = size_of_header + size_of_some out + optional_length body
    let header : OutHeader = record { len = len % 2 ^ 32; error = 0; unique = unique }
    w1 ← put w (out_header_byte_valued.as_slice header)
    w2 ← put_some w1 (bytes_of out)
    w3 ← put_some w2 body
    pure (bytes_written h.volatile w3)

  unfoldable pub reply_error : ℕ → Writer h.volatile → ℕ → Fs h ℕ
  unfolding put bytes_written
  reply_error unique w error = do
    let header : OutHeader = record { len = size_of_header; error = neg_i32 error; unique = unique }
    w1 ← put w (out_header_byte_valued.as_slice header)
    pure (bytes_written h.volatile w1)

  unfoldable pub reply_add_dir_entry : Writer h.volatile → DirEntry → Fs h (ℕ × Writer h.volatile)
  unfolding put
  reply_add_dir_entry cursor entry = do
    let entry_len = dir_entry_out_byte_valued.size_of + length entry.name
    let total_len = aligned entry_len
    c1 ← put cursor (dir_entry_out_byte_valued.as_slice (dir_entry_out entry))
    c2 ← put c1 entry.name
    let padding = total_len - entry_len
    c3 ← if ltb 0 padding then put c2 (take padding dirent_padding) else pure c2
    pure (total_len, c3)

  -- What a handler does with an error of `m`: it drops the error and replies with `error`.
  unfoldable pub answer_or :
      {A : Type 0} → ℕ → Writer h.volatile → ℕ → (A → Fs h ℕ) → Outcome Error A → Fs h ℕ
  unfolding reply_error
  answer_or unique w error k (ok a) = k a
  answer_or unique w error k (err e) = reply_error unique w error
  answer_or unique w error k panic = lift panic
  answer_or unique w error k hang = lift hang

  unfoldable pub or_reply :
      {A : Type 0} → ℕ → Writer h.volatile → ℕ → Fs h A → (A → Fs h ℕ) → Fs h ℕ
  unfolding answer_or
  or_reply unique w error m k s = answer_or unique w error k (m s).0 (m s).1
