-- ===== src/Filesystem/Handlers/ReadDir.antt =====
-- `readdir` of src/filesystem.rs, where everything goes well.
use ovfs.Prelude.{
  ℕ, ◌≡◌, ◌+◌, ◌%◌, ◌^◌, ◌≤◌, ◌<◌, refl, ap, ◌∙◌, arith, some, List, length, take, drop,
  length-take, length-drop, leb, false,
}
use ovfs.Prelude.Outcome.{Outcome, ok}
use ovfs.Prelude.Exec.{>>=-at_ok, pure, unwrap}
use ovfs.Libc
use ovfs.Error.{Error}
use ovfs.Memory.{load, store}
use ovfs.Volatile.{IsVolatile}
use ovfs.Chain.Flat.{left, room, IsValid}
use ovfs.Chain.Split.{split_at_lem}
use ovfs.Stream.{Reader, Writer, writer_split_at}
use ovfs.Message.{InHeader, OutHeader, ReadIn}
use ovfs.Message.Requests.{read_in_of, read_in_byte_valued}
use ovfs.Message.Replies.{out_header_bytes, length-out_header_bytes}
use ovfs.Filesystem.State.{OpenedFile, Host, World, opened_path}
use ovfs.Filesystem.Operations.{do_readdir}
use ovfs.Filesystem.Reply.{DirEntry, put, size_of_header}
use ovfs.Filesystem.Reply.Bytes.{put_lem, after_reply}
use ovfs.Filesystem.Request.{read_obj}
use ovfs.Filesystem.DataHandlers.{readdir, put_entries, put_header}
use ovfs.Filesystem.Dispatch.Answers.{read_obj_lem}
use ovfs.Filesystem.Handlers.Attributes.{or_reply-at_ok, opened_path-some}
use ovfs.Filesystem.Listing.{listing_bytes, put_entries_lem}

module _ (h : Host) (L : IsVolatile h.volatile) where
  -- The two parts of a writer that is split behind the header of a reply.
  pub split_header :
      (w : Writer h.volatile)
      → IsValid h.volatile w.buffer
      → 16 ≤ room h.volatile w.buffer
      → (head body : Writer h.volatile) × (writer_split_at h.volatile size_of_header w
          ≡ ok (head, body))
        × (left h.volatile head.buffer ≡ take 16 (left h.volatile w.buffer))
        × (left h.volatile body.buffer ≡ drop 16 (left h.volatile w.buffer))
        × IsValid h.volatile head.buffer
        × IsValid h.volatile body.buffer
  unfolding writer_split_at
  split_header w valid fits =
      let (head, body, e, front, back, counted, none_yet) =
        split_at_lem h.volatile L size_of_header w.buffer fits in
      (
        record { buffer = head },
        record { buffer = body },
        rw (e, writer_split_at) refl,
        front,
        back,
        record {
          fits = omega (
            arith,
            valid.fits,
            counted,
            ap length front,
            length-take 16 (left h.volatile w.buffer),
          );
        },
        record {
          fits = omega (
            arith,
            valid.fits,
            none_yet,
            ap length back,
            length-drop 16 (left h.volatile w.buffer),
          );
        },
      )

  -- The header of the answer.
  abbrev pub listing_header : ℕ → ℕ → OutHeader
  listing_header unique written = record {
    len = (size_of_header + written) % 2 ^ 32;
    error = 0;
    unique = unique;
  }

  put_header_lem :
      (unique : ℕ) (w : Writer h.volatile) (written : ℕ) (s : World h)
      → IsValid h.volatile w.buffer
      → 16 ≤ room h.volatile w.buffer
      → put_header h unique w written s ≡ (
        ok ((16 + written) % 2 ^ 32),
        after_reply h L w (out_header_bytes (listing_header unique written)) s,
      )
  unfolding put_header pure
  put_header_lem unique w written s valid fits =
      let header : List ℕ = out_header_bytes (listing_header unique written) in
      let (w1, e, after) =
        put_lem h L w header s valid
          (omega (arith, length-out_header_bytes (listing_header unique written))) in
      >>=-at_ok (put h w header) _ s e

  more_than : (n m : ℕ) → m < n → leb n m ≡ false
  more_than n m h = ground arith

  -- If the node of a readdir request has a file, do_readdir succeeds on its path, the requested
  -- offset is below the number of entries, the reader is valid and holds a ReadIn, and the writer
  -- is valid with room for a header and the listing, then readdir stores the bytes of all entries,
  -- one behind the other, at the addresses of the writer behind the first 16, and then at these 16
  -- a success header whose length counts both modulo 2 ^ 32, changes nothing else of what
  -- do_readdir left, and returns that length.
  pub readdir_lem :
      (in_header : InHeader) (r : Reader h.volatile) (w : Writer h.volatile) (s : World h)
      {f : OpenedFile} {entries : List DirEntry} {s' : World h}
      → IsValid h.volatile r.buffer
      → 40 ≤ room h.volatile r.buffer
      → IsValid h.volatile w.buffer
      → 16 + length (listing_bytes entries) ≤ room h.volatile w.buffer
      → h.slab.get s.opened_files in_header.nodeid ≡ some f
      → do_readdir h f.path s ≡ (ok entries, s')
      → (read_in_of (load s.memory (take 40 (left h.volatile r.buffer)))).offset < length entries
      → readdir h in_header r w s ≡ (
        ok ((16 + length (listing_bytes entries)) % 2 ^ 32),
        record s' {
          memory =
              store
                (store s'.memory (drop 16 (left h.volatile w.buffer)) (listing_bytes entries))
                (take 16 (left h.volatile w.buffer))
                (out_header_bytes
                  (listing_header in_header.unique (length (listing_bytes entries))));
        },
      )
  unfolding readdir unwrap
  readdir_lem in_header r w s {f} {entries} {s'} valid_r fits_r valid fits node listed behind =
      let (r', e1, after) = read_obj_lem h L {T = ReadIn} r s valid_r fits_r in
      let (head, body, e2, front, back, valid_head, valid_body) =
        split_header w valid (omega arith) in
      let written : ℕ = length (listing_bytes entries) in
      let s1 : World h = after_reply h L body (listing_bytes entries) s' in
      let no_more : 0 + written ≡ written = omega arith in
      let answer : ℕ → List ℕ → List ℕ → Outcome Error ℕ × World h =
        λ n front_addresses back_addresses. (
          ok ((16 + n) % 2 ^ 32),
          record s' {
            memory =
                store (store s'.memory back_addresses (listing_bytes entries)) front_addresses
                  (out_header_bytes (listing_header in_header.unique n));
          },
        ) in
      or_reply-at_ok h in_header.unique w Libc.enoent (opened_path h in_header.nodeid) _ s
        (opened_path-some h in_header.nodeid s node)
      ∙ >>=-at_ok (read_obj h {T = ReadIn} r) _ s e1
      ∙ >>=-at_ok (unwrap {E = Error} (writer_split_at h.volatile size_of_header w)) _ s
          (ap (λ o. unwrap {E = Error} o s) e2)
      ∙ or_reply-at_ok h in_header.unique head Libc.enoent (do_readdir h f.path) _ s listed
      ∙ rw (more_than (length entries) _ behind) (
          or_reply-at_ok h in_header.unique head Libc.eio (put_entries h body 0 entries) _ s' (
            put_entries_lem h L body 0 entries s' valid_body
              (omega (arith, ap length back, length-drop 16 (left h.volatile w.buffer))))
          ∙ put_header_lem in_header.unique head (0 + written) s1 valid_head
              (omega (arith, ap length front, length-take 16 (left h.volatile w.buffer)))
          ∙ ap (λ n. answer n (left h.volatile head.buffer) (left h.volatile body.buffer)) no_more
          ∙ ap (λ l. answer written l (left h.volatile body.buffer)) front
          ∙ ap (λ l. answer written (take 16 (left h.volatile w.buffer)) l) back)
