-- ===== src/Filesystem/Handlers/Release.antt =====
-- `release` of src/filesystem.rs, with and without a writer.
use ovfs.Prelude.{ℕ, ◌≡◌, ◌+◌, ◌≤◌, refl, ◌∙◌, none, some, List}
use ovfs.Prelude.Outcome.{ok, err}
use ovfs.Prelude.Exec.{◌>>=◌, >>=-at_ok, >>=-at_err}
use ovfs.Prelude.Dict.{lookup, insert, remove, lookup-remove_same}
use ovfs.Libc
use ovfs.Volatile.{IsVolatile}
use ovfs.Chain.Flat.{room, IsValid}
use ovfs.Stream.{Reader, Writer}
use ovfs.Message.{InHeader}
use ovfs.Message.Layout.{u8_byte_valued}
use ovfs.Message.Replies.{out_header_bytes}
use ovfs.Filesystem.State.{OpenedFile, Host, InnerWriter, World, errno, opened_path}
use ovfs.Filesystem.Operations.{writer_of, on_writer, drop_writer, do_release_writer}
use ovfs.Filesystem.Order.{writer_of-none, writer_of-some}
use ovfs.Filesystem.Reply.Bytes.{after_reply, error_header, reply_error_lem, ok_bytes, reply_ok_lem}
use ovfs.Filesystem.Handlers.{release}
use ovfs.Filesystem.Handlers.Attributes.{or_reply-at_ok, or_reply-at_err, opened_path-some}

module _ (h : Host) where
  do_release_writer-none :
      (path : List ℕ) (s : World h)
      → lookup path s.opened_files_writer ≡ none
      → do_release_writer h path s ≡ (err (errno h Libc.eio), s)
  unfolding do_release_writer
  do_release_writer-none path s e = >>=-at_err (writer_of h path) _ s (writer_of-none h path s e)

  -- The world once the writer of `path` was closed.
  abbrev pub closed : List ℕ → InnerWriter h → h.core.State → World h → World h
  closed path w storage s = record s {
    storage = storage;
    opened_files_writer = remove path (insert path w s.opened_files_writer);
  }

  do_release_writer_lem :
      (path : List ℕ) (s : World h) {w : InnerWriter h} {writer : h.core.Writer}
      {storage : h.core.State}
      → lookup path s.opened_files_writer ≡ some w
      → h.core.close (w.writer, s.storage) ≡ (ok tt, (writer, storage))
      → do_release_writer h path s
        ≡ (ok tt, closed path (record { writer = writer; written = w.written }) storage s)
  unfolding do_release_writer on_writer drop_writer ◌>>=◌
  do_release_writer_lem path s e done =
      >>=-at_ok (writer_of h path) _ s (writer_of-some h path s e) ∙ rw done refl

  module _ (L : IsVolatile h.volatile) (in_header : InHeader) (r : Reader h.volatile)
      (w : Writer h.volatile) (s : World h) (valid : IsValid h.volatile w.buffer)
      (fits : 16 ≤ room h.volatile w.buffer) {f : OpenedFile}
      (opened : h.slab.get s.opened_files in_header.nodeid ≡ some f) where
    -- If the node of a release request has a file whose path has no writer, and the reply writer
    -- is valid with room for a header, then release writes an EIO reply for the request, changes
    -- nothing but that guest memory, and returns the number of bytes of the reply writer with 16
    -- more.
    pub release-no_writer :
        lookup f.path s.opened_files_writer ≡ none
        → release h in_header r w s ≡ (
          ok (w.buffer.bytes_consumed + 16),
          after_reply h L w (out_header_bytes (error_header h L in_header.unique Libc.eio)) s,
        )
    unfolding release
    release-no_writer unwritten =
        or_reply-at_ok h in_header.unique w Libc.enoent (opened_path h in_header.nodeid) _ s
          (opened_path-some h in_header.nodeid s opened)
        ∙ or_reply-at_err h in_header.unique w Libc.eio (do_release_writer h f.path) _ s
            (do_release_writer-none f.path s unwritten)
        ∙ reply_error_lem h L in_header.unique Libc.eio w s valid fits

    -- If the node of a release request has a file, its path has a writer that the storage closes,
    -- and the reply writer is valid with room for a header, then release writes a success reply of
    -- a header alone, and returns the number of bytes of the reply writer with 16 more; the path
    -- has no writer then, and the storage has its new state.
    pub release_lem :
        {iw : InnerWriter h} {writer : h.core.Writer} {storage : h.core.State}
        → lookup f.path s.opened_files_writer ≡ some iw
        → h.core.close (iw.writer, s.storage) ≡ (ok tt, (writer, storage))
        → (s' : World h) × (release h in_header r w s ≡ (
          ok (w.buffer.bytes_consumed + 16),
          after_reply h L w (ok_bytes h L {T = ℕ} none none in_header.unique) s',
        ))
          × (lookup f.path s'.opened_files_writer ≡ none)
          × (s'.storage ≡ storage)
    unfolding release
    release_lem {iw} {writer} {storage} written done =
        let iw' : InnerWriter h = record { writer = writer; written = iw.written } in
        let s' : World h = closed f.path iw' storage s in
        (
          s',
          or_reply-at_ok h in_header.unique w Libc.enoent (opened_path h in_header.nodeid) _ s
                (opened_path-some h in_header.nodeid s opened)
              ∙ or_reply-at_ok h in_header.unique w Libc.eio (do_release_writer h f.path) _ s
                  (do_release_writer_lem f.path s written done)
              ∙ reply_ok_lem h L {T = ℕ} none none in_header.unique w s' valid fits,
          lookup-remove_same f.path (insert f.path iw' s.opened_files_writer),
          refl,
        )
