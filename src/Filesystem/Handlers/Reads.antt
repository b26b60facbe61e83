-- ===== src/Filesystem/Handlers/Reads.antt =====
-- `read` of src/filesystem.rs, where the storage gives bytes.
use ovfs.Prelude.{
  ℕ, ◌≡◌, ◌+◌, ◌%◌, ◌^◌, ◌≤◌, refl, ap, ◌∙◌, arith, some, List, length, take, drop, length-take,
  min,
}
use ovfs.Prelude.Outcome.{Outcome, ok}
use ovfs.Prelude.Exec.{>>=-at_ok, pure, unwrap}
use ovfs.Libc
use ovfs.Error.{Error}
use ovfs.Memory.{load, store}
use ovfs.Volatile.{IsVolatile}
use ovfs.Chain.Flat.{left, room, IsValid}
use ovfs.Stream.{Reader, Writer, writer_split_at}
use ovfs.Buffer.{write_from_at}
use ovfs.Buffer.Copy.{NonEmpty, write_from_at_lem}
use ovfs.Message.{InHeader, ReadIn}
use ovfs.Message.Requests.{read_in_of, read_in_byte_valued}
use ovfs.Message.Replies.{out_header_bytes, length-out_header_bytes}
use ovfs.Filesystem.State.{OpenedFile, Host, World, opened_path, on_memory}
use ovfs.Filesystem.Operations.{do_read}
use ovfs.Filesystem.Reply.{put, size_of_header}
use ovfs.Filesystem.Reply.Bytes.{put_lem, after_reply}
use ovfs.Filesystem.Request.{read_obj}
use ovfs.Filesystem.DataHandlers.{read}
use ovfs.Filesystem.Dispatch.Answers.{read_obj_lem}
use ovfs.Filesystem.Handlers.Attributes.{or_reply-at_ok, opened_path-some}
use ovfs.Filesystem.Handlers.ReadDir.{split_header, listing_header}

module _ (h : Host) (L : IsVolatile h.volatile) where
  -- The bytes of a file, as far as there is room.
  copied :
      (w : Writer h.volatile) (bytes : List ℕ) (s : World h)
      → IsValid h.volatile w.buffer
      → NonEmpty h.volatile w.buffer.buffers
      → (r : ℕ × Writer h.volatile) × (on_memory h
            (write_from_at h.volatile w (record { buffer = bytes }) (length bytes))
            s
          ≡ (ok r, after_reply h L w bytes s))
  unfolding on_memory
  copied w bytes s valid full =
      let (w', e, after) =
        write_from_at_lem h.volatile L w (record { buffer = bytes }) s.memory valid full in
      ((min (length bytes) (room h.volatile w.buffer), w'), rw e refl)

  -- If the node of a read request has a file, the storage gives bytes for its path from the
  -- requested offset on, the reader is valid and holds a ReadIn, and the writer is valid with room
  -- for a header, and split behind it none of its slices is empty, then read stores these bytes at
  -- the addresses of the writer behind the first 16, as many as there is room for, and then at
  -- these 16 a success header whose length counts the header and all the bytes that the storage
  -- gave modulo 2 ^ 32, changes nothing else of what do_read left, and returns that length.
  pub read-do_read :
      (in_header : InHeader) (r : Reader h.volatile) (w : Writer h.volatile) (s : World h)
      {f : OpenedFile} {bytes : List ℕ} {s' : World h}
      → IsValid h.volatile r.buffer
      → 40 ≤ room h.volatile r.buffer
      → IsValid h.volatile w.buffer
      → 16 ≤ room h.volatile w.buffer
      → ((head body : Writer h.volatile)
          → writer_split_at h.volatile size_of_header w ≡ ok (head, body)
          → NonEmpty h.volatile body.buffer.buffers)
      → h.slab.get s.opened_files in_header.nodeid ≡ some f
      → do_read h f.path (read_in_of (load s.memory (take 40 (left h.volatile r.buffer)))).offset s
        ≡ (ok bytes, s')
      → read h in_header r w s ≡ (
        ok ((16 + length bytes) % 2 ^ 32),
        record s' {
          memory =
              store
                (store s'.memory (drop 16 (left h.volatile w.buffer)) bytes)
                (take 16 (left h.volatile w.buffer))
                (out_header_bytes (listing_header h L in_header.unique (length bytes)));
        },
      )
  unfolding read unwrap pure
  read-do_read in_header r w s {f} {bytes} {s'} valid_r fits_r valid fits full node done =
      let (r', e1, after) = read_obj_lem h L {T = ReadIn} r s valid_r fits_r in
      let (head, body, e2, front, back, valid_head, valid_body) = split_header h L w valid fits in
      let (n, e3) = copied body bytes s' valid_body (full head body e2) in
      let s1 : World h = after_reply h L body bytes s' in
      let header : List ℕ = out_header_bytes (listing_header h L in_header.unique (length bytes)) in
      let (w1, e4, after4) = put_lem h L head header s1 valid_head (
        omega (
          arith,
          ap length front,
          length-take 16 (left h.volatile w.buffer),
          length-out_header_bytes (listing_header h L in_header.unique (length bytes)),
        )) in
      let answer : List ℕ → List ℕ → Outcome Error ℕ × World h = λ front_addresses back_addresses. (
        ok ((16 + length bytes) % 2 ^ 32),
        record s' { memory = store (store s'.memory back_addresses bytes) front_addresses header },
      ) in
      >>=-at_ok (read_obj h {T = ReadIn} r) _ s e1
      ∙ or_reply-at_ok h in_header.unique w Libc.enoent (opened_path h in_header.nodeid) _ s
          (opened_path-some h in_header.nodeid s node)
      ∙ or_reply-at_ok h in_header.unique w Libc.enoent (do_read h f.path _) _ s done
      ∙ >>=-at_ok (unwrap {E = Error} (writer_split_at h.volatile size_of_header w)) _ s'
          (ap (λ o. unwrap {E = Error} o s') e2)
      ∙ >>=-at_ok
          (on_memory h (write_from_at h.volatile body (record { buffer = bytes }) (length bytes))) _
          s' e3
      ∙ >>=-at_ok (put h head header) _ s1 e4
      ∙ ap (λ l. answer l (left h.volatile body.buffer)) front
      ∙ ap (λ l. answer (take 16 (left h.volatile w.buffer)) l) back
