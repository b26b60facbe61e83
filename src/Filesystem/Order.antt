-- ===== src/Filesystem/Order.antt =====
-- `do_write` of src/filesystem.rs and the offsets that the writer of a path takes.
use ovfs.Prelude.{ℕ, ◌≡◌, ◌≢◌, ◌+◌, ◌%◌, ◌^◌, refl, ◌∙◌, ◌⊎◌, inl, inr, arith, none, some, false}
use ovfs.Prelude.{List, length, ◌==◌, ==_refl}
use ovfs.Prelude.Outcome.{ok, err}
use ovfs.Prelude.Exec.{>>=-at_ok, >>=-at_err, pure, raise, ok_or}
use ovfs.Prelude.Dict.{lookup, insert, lookup-insert_same}
use ovfs.Libc
use ovfs.Filesystem.State.{Host, InnerWriter, World, errno}
use ovfs.Filesystem.Operations.{writer_of, on_writer, count_written, put_writer, do_write}

ne_== : (a b : ℕ) → a ≢ b → (a == b) ≡ false
ne_== a b h = ground arith

module _ (h : Host) where
  pub writer_of-none :
      (path : List ℕ) (s : World h)
      → lookup path s.opened_files_writer ≡ none
      → writer_of h path s ≡ (err (errno h Libc.eio), s)
  unfolding writer_of ok_or
  writer_of-none path s e = rw (e, ok_or) refl

  pub writer_of-some :
      (path : List ℕ) (s : World h) {w : InnerWriter h}
      → lookup path s.opened_files_writer ≡ some w
      → writer_of h path s ≡ (ok w, s)
  unfolding writer_of ok_or
  writer_of-some path s e = rw (e, ok_or) refl

  -- A write to a path that has no writer, or at another offset than its writer has reached, fails
  -- with EIO and changes nothing.
  pub do_write-refused :
      (path : List ℕ) (offset : ℕ) (bytes : List ℕ) (s : World h)
      → (lookup path s.opened_files_writer ≡ none)
        ⊎ ((w : InnerWriter h) × (lookup path s.opened_files_writer ≡ some w)
            × (offset ≢ w.written))
      → do_write h path offset bytes s ≡ (err (errno h Libc.eio), s)
  unfolding do_write raise
  do_write-refused path offset bytes s (inl e) =
      >>=-at_err (writer_of h path) _ s (writer_of-none path s e)
  do_write-refused path offset bytes s (inr (w, e, ne)) =
      >>=-at_ok (writer_of h path) _ s (writer_of-some path s e)
      ∙ rw (ne_== offset w.written ne) refl

  -- The world once the writer of `path` took some bytes.
  abbrev pub written_to : List ℕ → InnerWriter h → h.core.State → World h → World h
  written_to path w storage s = record s {
    storage = storage;
    opened_files_writer = insert path w s.opened_files_writer;
  }

  count_written_lem :
      (path : List ℕ) (len : ℕ) (s : World h) {w : InnerWriter h}
      → lookup path s.opened_files_writer ≡ some w
      → count_written h path len s
        ≡ (ok tt, written_to path (record w { written = (w.written + len) % 2 ^ 64 }) s.storage s)
  unfolding count_written put_writer
  count_written_lem path len s e = >>=-at_ok (writer_of h path) _ s (writer_of-some path s e)

  on_writer_lem :
      (path : List ℕ) (bytes : List ℕ) (s : World h) (w : InnerWriter h) {writer : h.core.Writer}
      {storage : h.core.State}
      → h.core.write_from bytes (w.writer, s.storage) ≡ (ok tt, (writer, storage))
      → on_writer h path w (h.core.write_from bytes) s
        ≡ (ok tt, written_to path (record { writer = writer; written = w.written }) storage s)
  unfolding on_writer
  on_writer_lem path bytes s w done = rw done refl

  -- A write at the offset that the writer of the path has reached, which the storage takes,
  -- returns the number of bytes; the writer then has the storage's new writer and has reached the
  -- offset behind these bytes modulo 2 ^ 64, and the storage has its new state.
  pub do_write_lem :
      (path : List ℕ) (bytes : List ℕ) (s : World h) {w : InnerWriter h} {writer : h.core.Writer}
      {storage : h.core.State}
      → lookup path s.opened_files_writer ≡ some w
      → h.core.write_from bytes (w.writer, s.storage) ≡ (ok tt, (writer, storage))
      → (s' : World h) × (do_write h path w.written bytes s ≡ (ok (length bytes), s'))
        × (lookup path s'.opened_files_writer
            ≡ some (record { writer = writer; written = (w.written + length bytes) % 2 ^ 64 }))
        × (s'.storage ≡ storage)
  unfolding do_write pure
  do_write_lem path bytes s {w} {writer} {storage} e done =
      let w1 : InnerWriter h = record { writer = writer; written = w.written } in
      let s1 : World h = written_to path w1 storage s in
      let w2 : InnerWriter h = record w1 { written = (w.written + length bytes) % 2 ^ 64 } in
      (
        written_to path w2 storage s1,
        >>=-at_ok (writer_of h path) _ s (writer_of-some path s e)
            ∙ rw (==_refl w.written) (
                >>=-at_ok (on_writer h path w (h.core.write_from bytes)) _ s
                  (on_writer_lem path bytes s w done)
                ∙ >>=-at_ok (count_written h path (length bytes)) _ s1 (
                    count_written_lem path (length bytes) s1
                      (lookup-insert_same path w1 s.opened_files_writer))),
        lookup-insert_same path w2 s1.opened_files_writer,
        refl,
      )
