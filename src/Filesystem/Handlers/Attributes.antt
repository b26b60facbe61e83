-- ===== src/Filesystem/Handlers/Attributes.antt =====
-- `getattr` of src/filesystem.rs on its branches.
use ovfs.Prelude.{ℕ, ◌≡◌, ◌+◌, ◌≤◌, refl, ap, ◌∙◌, arith, none, some, length, append-nil}
use ovfs.Prelude.Outcome.{ok, err}
use ovfs.Libc
use ovfs.Error.{Error}
use ovfs.Volatile.{IsVolatile}
use ovfs.Chain.Flat.{room, IsValid}
use ovfs.Stream.{Reader, Writer}
use ovfs.Message.{InHeader, AttrOut}
use ovfs.Message.Replies.{
  out_header_bytes, attr_out_bytes, length-attr_out_bytes, attr_out_byte_valued,
}
use ovfs.Filesystem.State.{OpenedFile, Host, World, Fs, errno, opened_path}
use ovfs.Filesystem.Operations.{do_get_metadata}
use ovfs.Filesystem.Reply.{or_reply, answer_or, reply_error}
use ovfs.Filesystem.Reply.Bytes.{
  after_reply, error_header, reply_error_lem, ok_bytes, ok_content, reply_ok_lem,
}
use ovfs.Filesystem.Handlers.{getattr}

-- The answer to a request for attributes, written out: they are valid for a second.
abbrev pub shown_attributes : OpenedFile → AttrOut
shown_attributes f = record { attr_valid = 1; attr_valid_nsec = 0; dummy = 0; attr = f.metadata }

module _ (h : Host) where
  pub or_reply-at_ok :
      {A : Type 0} (unique : ℕ) (w : Writer h.volatile) (error : ℕ) (m : Fs h A) (k : A → Fs h ℕ)
      (s : World h) {a : A} {s' : World h}
      → m s ≡ (ok a, s')
      → or_reply h unique w error m k s ≡ k a s'
  unfolding or_reply answer_or
  or_reply-at_ok unique w error m k s e = ap (λ r. answer_or h unique w error k r.0 r.1) e

  pub or_reply-at_err :
      {A : Type 0} (unique : ℕ) (w : Writer h.volatile) (error : ℕ) (m : Fs h A) (k : A → Fs h ℕ)
      (s : World h) {x : Error} {s' : World h}
      → m s ≡ (err x, s')
      → or_reply h unique w error m k s ≡ reply_error h unique w error s'
  unfolding or_reply answer_or
  or_reply-at_err unique w error m k s e = ap (λ r. answer_or h unique w error k r.0 r.1) e

  pub opened_path-some :
      (inode : ℕ) (s : World h) {f : OpenedFile}
      → h.slab.get s.opened_files inode ≡ some f
      → opened_path h inode s ≡ (ok f.path, s)
  unfolding opened_path
  opened_path-some inode s e = rw (e, opened_path) refl

  opened_path-none :
      (inode : ℕ) (s : World h)
      → h.slab.get s.opened_files inode ≡ none
      → (x : Error) × (opened_path h inode s ≡ (err x, s))
  unfolding opened_path
  opened_path-none inode s e = (errno h Libc.enoent, rw (e, opened_path) refl)

  module _ (L : IsVolatile h.volatile) (in_header : InHeader) (r : Reader h.volatile)
      (w : Writer h.volatile) (s : World h) (valid : IsValid h.volatile w.buffer) where
    -- If the node of a getattr request has no file, and the writer is valid with room for a
    -- header, then getattr writes an ENOENT reply for the request, changes nothing but that guest
    -- memory, and returns the number of bytes of the writer with 16 more.
    pub getattr-unknown :
        16 ≤ room h.volatile w.buffer
        → h.slab.get s.opened_files in_header.nodeid ≡ none
        → getattr h in_header r w s ≡ (
          ok (w.buffer.bytes_consumed + 16),
          after_reply h L w (out_header_bytes (error_header h L in_header.unique Libc.enoent)) s,
        )
    unfolding getattr
    getattr-unknown fits e =
        let (x, failed) = opened_path-none in_header.nodeid s e in
        or_reply-at_err in_header.unique w Libc.enoent (opened_path h in_header.nodeid) _ s failed
        ∙ reply_error_lem h L in_header.unique Libc.enoent w s valid fits

    -- If the node of a getattr request has a file, and do_get_metadata fails on its path, then getattr
    -- writes an ENOENT reply.
    pub getattr-failed :
        16 ≤ room h.volatile w.buffer
        → {f : OpenedFile} {x : Error} {s' : World h}
        → h.slab.get s.opened_files in_header.nodeid ≡ some f
        → do_get_metadata h f.path s ≡ (err x, s')
        → getattr h in_header r w s ≡ (
          ok (w.buffer.bytes_consumed + 16),
          after_reply h L w (out_header_bytes (error_header h L in_header.unique Libc.enoent)) s',
        )
    unfolding getattr
    getattr-failed fits {f} {s' = s'} e failed =
        or_reply-at_ok in_header.unique w Libc.enoent (opened_path h in_header.nodeid) _ s
          (opened_path-some in_header.nodeid s e)
        ∙ or_reply-at_err in_header.unique w Libc.enoent (do_get_metadata h f.path) _ s failed
        ∙ reply_error_lem h L in_header.unique Libc.enoent w s' valid fits

    -- If the node of a getattr request has a file, do_get_metadata succeeds on its path, and the
    -- writer is valid with room for 120 bytes, then getattr writes a success reply with these
    -- attributes, valid for one second, and returns the number of bytes of the writer with 120
    -- more.
    pub getattr_lem :
        120 ≤ room h.volatile w.buffer
        → {f g : OpenedFile} {s' : World h} → h.slab.get s.opened_files in_header.nodeid ≡ some f
        → do_get_metadata h f.path s ≡ (ok g, s')
        → getattr h in_header r w s ≡ (
          ok (w.buffer.bytes_consumed + 120),
          after_reply h L w (ok_bytes h L (some (shown_attributes g)) none in_header.unique) s',
        )
    unfolding getattr
    getattr_lem fits {f} {g} {s'} e done =
        let size : length (ok_content h L (some (shown_attributes g)) none) ≡ 104 =
          ap length (append-nil (attr_out_bytes (shown_attributes g)))
          ∙ length-attr_out_bytes (shown_attributes g) in
        or_reply-at_ok in_header.unique w Libc.enoent (opened_path h in_header.nodeid) _ s
          (opened_path-some in_header.nodeid s e)
        ∙ or_reply-at_ok in_header.unique w Libc.enoent (do_get_metadata h f.path) _ s done
        ∙ reply_ok_lem h L (some (shown_attributes g)) none in_header.unique w s' valid
            (omega (arith, size))
        ∙ ap
            (λ n. (
              ok (w.buffer.bytes_consumed + (16 + n)),
              after_reply h L w (ok_bytes h L (some (shown_attributes g)) none in_header.unique) s',
            ))
            size
