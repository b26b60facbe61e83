-- ===== src/Filesystem/Dispatch/Answers.antt =====
-- How `handle_message` answers a message before any handler runs.
use ovfs.Prelude.{ℕ, ◌≡◌, ◌≢◌, ◌+◌, ◌≤◌, ◌<◌, refl, ap, ◌∙◌, arith, take, false, ltb, lt→ltb}
use ovfs.Prelude.Outcome.{ok, err, panic, hang, map_err}
use ovfs.Prelude.Exec.{>>=-at_ok, >>=-at_err, pure}
use ovfs.Libc
use ovfs.Error.{Result}
use ovfs.Memory.{load}
use ovfs.Volatile.{IsVolatile}
use ovfs.Chain.Flat.{left, room, IsValid}
use ovfs.Chain.Consume.{IsAfter}
use ovfs.Stream.{Reader, Writer, read_exact}
use ovfs.Stream.Read.{read_exact_lem, read_exact-eof}
use ovfs.Message.{InHeader, Opcode, number, try_from}
use ovfs.Message.Layout.{ByteValued}
use ovfs.Message.Requests.{in_header_of, in_header_byte_valued}
use ovfs.Message.Replies.{out_header_bytes}
use ovfs.Message.Opcodes.{try_from_iff}
use ovfs.Filesystem.State.{Host, World, errno, from_memory}
use ovfs.Filesystem.Reply.{reply_error}
use ovfs.Filesystem.Reply.Bytes.{after_reply, error_header, reply_error_lem}
use ovfs.Filesystem.Request.{read_obj, max_buffer_size, buffer_header_size}
use ovfs.Filesystem.Dispatch.{dispatch, handle_message}

le→ltb : (a b : ℕ) → b ≤ a → ltb a b ≡ false
le→ltb a b h = ground arith

module _ (h : Host) (L : IsVolatile h.volatile) where
  pub read_obj_lem :
      {T : Type 0} ⦃b : ByteValued T⦄ (r : Reader h.volatile) (s : World h)
      → IsValid h.volatile r.buffer
      → b.size_of ≤ room h.volatile r.buffer
      → (r' : Reader h.volatile) × (read_obj h {T = T} r s
          ≡ (ok (b.from_slice (load s.memory (take b.size_of (left h.volatile r.buffer))), r'), s))
        × IsAfter h.volatile r.buffer b.size_of r'.buffer
  unfolding read_obj from_memory pure
  read_obj_lem ⦃b⦄ r s valid fits =
      let (r', e, after) = read_exact_lem h.volatile L s.memory r b.size_of valid fits in
      (
        r',
        >>=-at_ok (from_memory h (λ mem. read_exact h.volatile mem r b.size_of)) _ s
            (ap (λ o. (map_err (λ _. errno h Libc.eio) o, s)) e),
        after,
      )

  read_obj-short :
      {T : Type 0} ⦃b : ByteValued T⦄ (r : Reader h.volatile) (s : World h)
      → IsValid h.volatile r.buffer
      → room h.volatile r.buffer < b.size_of
      → read_obj h {T = T} r s ≡ (err (errno h Libc.eio), s)
  unfolding read_obj from_memory
  read_obj-short ⦃b⦄ r s valid short =
      >>=-at_err (from_memory h (λ mem. read_exact h.volatile mem r b.size_of)) _ s (
        ap (λ o. (map_err (λ _. errno h Libc.eio) o, s))
          (read_exact-eof h.volatile L s.memory r b.size_of valid short))

  -- The header of the message that `r` reads.
  abbrev pub header_of : Reader h.volatile → World h → InHeader
  header_of r s = in_header_of (load s.memory (take 40 (left h.volatile r.buffer)))

  -- On a valid reader with fewer than the 40 bytes of a header, handle_message returns the error
  -- of EIO, without a reply, and changes nothing.
  pub handle_message-short :
      (r : Reader h.volatile) (w : Writer h.volatile) (s : World h)
      → IsValid h.volatile r.buffer
      → room h.volatile r.buffer < 40
      → handle_message h r w s ≡ (err (errno h Libc.eio), s)
  unfolding handle_message
  handle_message-short r w s valid short =
      >>=-at_err (read_obj h {T = InHeader} r) _ s (read_obj-short r s valid short)

  -- A message whose header gives a length above the largest buffer and the largest header together
  -- is answered with an EIO reply for its unique number, if the reader holds a header, the writer
  -- has room for one, and both are valid; nothing but that guest memory changes.
  pub handle_message-too_long :
      (r : Reader h.volatile) (w : Writer h.volatile) (s : World h)
      → IsValid h.volatile r.buffer
      → 40 ≤ room h.volatile r.buffer
      → IsValid h.volatile w.buffer
      → 16 ≤ room h.volatile w.buffer
      → max_buffer_size + buffer_header_size < (header_of r s).len
      → handle_message h r w s ≡ (
        ok (w.buffer.bytes_consumed + 16),
        after_reply h L w (out_header_bytes (error_header h L (header_of r s).unique Libc.eio)) s,
      )
  unfolding handle_message
  handle_message-too_long r w s valid fits valid_w fits_w long =
      let (r', e, after) = read_obj_lem {T = InHeader} r s valid fits in
      >>=-at_ok (read_obj h {T = InHeader} r) _ s e
      ∙ rw (lt→ltb _ (header_of r s).len long)
          (reply_error_lem h L (header_of r s).unique Libc.eio w s valid_w fits_w)

  no_opcode :
      (o : Result Opcode) (in_header : InHeader) (r : Reader h.volatile) (w : Writer h.volatile)
      → ((opcode : Opcode) → o ≢ ok opcode)
      → dispatch h o in_header r w ≡ reply_error h in_header.unique w Libc.enosys
  unfolding dispatch
  no_opcode (ok opcode) in_header r w other = absurd (other opcode refl)
  no_opcode (err e) in_header r w other = refl
  no_opcode panic in_header r w other = refl
  no_opcode hang in_header r w other = refl

  -- A message of at most the permitted length whose opcode is the number of no opcode is answered
  -- with an ENOSYS reply for its unique number, if the reader holds a header, the writer has room
  -- for one, and both are valid; nothing but that guest memory changes.
  pub handle_message-unknown :
      (r : Reader h.volatile) (w : Writer h.volatile) (s : World h)
      → IsValid h.volatile r.buffer
      → 40 ≤ room h.volatile r.buffer
      → IsValid h.volatile w.buffer
      → 16 ≤ room h.volatile w.buffer
      → (header_of r s).len ≤ max_buffer_size + buffer_header_size
      → ((opcode : Opcode) → number opcode ≢ (header_of r s).opcode)
      → handle_message h r w s ≡ (
        ok (w.buffer.bytes_consumed + 16),
        after_reply h L w
            (out_header_bytes (error_header h L (header_of r s).unique Libc.enosys))
            s,
      )
  unfolding handle_message
  handle_message-unknown r w s valid fits valid_w fits_w short other =
      let (r', e, after) = read_obj_lem {T = InHeader} r s valid fits in
      let known =
        no_opcode (try_from (header_of r s).opcode) (header_of r s) r' w
          (λ o found. other o ((try_from_iff (header_of r s).opcode o).0 found)) in
      >>=-at_ok (read_obj h {T = InHeader} r) _ s e
      ∙ rw (le→ltb _ (header_of r s).len short) (
          ap (λ m. m s) known
          ∙ reply_error_lem h L (header_of r s).unique Libc.enosys w s valid_w fits_w)
