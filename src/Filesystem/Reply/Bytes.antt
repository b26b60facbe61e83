-- ===== src/Filesystem/Reply/Bytes.antt =====
-- The bytes that the replies put into guest memory.
use ovfs.Prelude.{
  ℕ, ◌+◌, ◌≤◌, ◌<◌, ◌≡◌, ◌%◌, ◌^◌, refl, sym, ap, ap₂, ◌∙◌, arith, Option, none, some,
}
use ovfs.Prelude.{
  List, [], ◌++◌, length, drop, length-drop, length-append, drop_at, drop-drop, append-nil,
  append_assoc,
}
use ovfs.Prelude.Outcome.{ok, err}
use ovfs.Prelude.Exec.{◌>>=◌, >>=-at_ok, >>=-at_err, pure}
use ovfs.Libc
use ovfs.Memory.{store, store_again}
use ovfs.Volatile.{IsVolatile}
use ovfs.Chain.Flat.{left, room, IsValid}
use ovfs.Chain.Consume.{IsAfter, IsAfter-IsValid}
use ovfs.Stream.{Writer, bytes_written}
use ovfs.Stream.Write.{write_all_lem, write_all-no_room}
use ovfs.Message.{OutHeader}
use ovfs.Message.Layout.{ByteValued}
use ovfs.Message.Replies.{out_header_bytes, length-out_header_bytes, out_header_byte_valued}
use ovfs.Filesystem.State.{Host, World, on_memory, errno}
use ovfs.Filesystem.Reply.{
  put, put_some, reply_ok, reply_error, neg_i32, size_of_some, bytes_of, optional_length,
  size_of_header,
}

module _ (h : Host) (L : IsVolatile h.volatile) where
  -- The world once `bytes` were written to a stream.
  abbrev pub after_reply : Writer h.volatile → List ℕ → World h → World h
  after_reply w bytes s = record s { memory = store s.memory (left h.volatile w.buffer) bytes }

  pub put_lem :
      (w : Writer h.volatile) (bytes : List ℕ) (s : World h)
      → IsValid h.volatile w.buffer
      → length bytes ≤ room h.volatile w.buffer
      → (w' : Writer h.volatile) × (put h w bytes s ≡ (ok w', after_reply w bytes s))
        × IsAfter h.volatile w.buffer (length bytes) w'.buffer
  unfolding put on_memory
  put_lem w bytes s valid fits =
      let (w', e, after) = write_all_lem h.volatile L w bytes s.memory valid fits in
      (w', rw e refl, after)

  pub put-no_room :
      (w : Writer h.volatile) (bytes : List ℕ) (s : World h)
      → IsValid h.volatile w.buffer
      → room h.volatile w.buffer < length bytes
      → put h w bytes s ≡ (err (errno h Libc.eio), after_reply w bytes s)
  unfolding put on_memory
  put-no_room w bytes s valid full =
      rw (write_all-no_room h.volatile L w bytes s.memory valid full) refl

  abbrev pub error_header : ℕ → ℕ → OutHeader
  error_header unique error = record {
    len = size_of_header;
    error = neg_i32 error;
    unique = unique;
  }

  -- On a valid writer with room for a header, reply_error puts a header of length 16 with the
  -- negated error number and the unique number at the addresses of the writer, and returns the
  -- number of bytes of the writer with 16 more.
  pub reply_error_lem :
      (unique error : ℕ) (w : Writer h.volatile) (s : World h)
      → IsValid h.volatile w.buffer
      → 16 ≤ room h.volatile w.buffer
      → reply_error h unique w error s ≡ (
        ok (w.buffer.bytes_consumed + 16),
        after_reply w (out_header_bytes (error_header unique error)) s,
      )
  unfolding reply_error pure bytes_written
  reply_error_lem unique error w s valid fits =
      let bytes : List ℕ = out_header_bytes (error_header unique error) in
      let size : length bytes ≡ 16 = length-out_header_bytes (error_header unique error) in
      let (w', e, after) = put_lem w bytes s valid (rw size fits) in
      >>=-at_ok (put h w bytes) _ s e
      ∙ ap (λ n. (ok n, after_reply w bytes s))
          (after.counted ∙ ap (λ n. w.buffer.bytes_consumed + n) size)

  pub reply_error-no_room :
      (unique error : ℕ) (w : Writer h.volatile) (s : World h)
      → IsValid h.volatile w.buffer
      → room h.volatile w.buffer < 16
      → reply_error h unique w error s
        ≡ (err (errno h Libc.eio), after_reply w (out_header_bytes (error_header unique error)) s)
  unfolding reply_error pure bytes_written
  reply_error-no_room unique error w s valid full =
      let size = length-out_header_bytes (error_header unique error) in
      >>=-at_err (put h w (out_header_bytes (error_header unique error))) _ s
        (put-no_room w (out_header_bytes (error_header unique error)) s valid (rw size full))

  -- A reply that goes on behind the bytes `sent` of it.
  pub put_more :
      (w w1 : Writer h.volatile) (sent bytes : List ℕ) (s : World h)
      → IsValid h.volatile w.buffer
      → length sent + length bytes ≤ room h.volatile w.buffer
      → IsAfter h.volatile w.buffer (length sent) w1.buffer
      → (w2 : Writer h.volatile) × (put h w1 bytes (after_reply w sent s)
          ≡ (ok w2, after_reply w (sent ++ bytes) s))
        × IsAfter h.volatile w.buffer (length (sent ++ bytes)) w2.buffer
  put_more w w1 sent bytes s valid fits after1 =
      let valid1 = IsAfter-IsValid h.volatile (omega arith) after1 valid in
      let room1 : length bytes ≤ room h.volatile w1.buffer =
        omega
          (arith, ap length after1.dropped, length-drop (length sent) (left h.volatile w.buffer)) in
      let (w2, e, after2) = put_lem w1 bytes (after_reply w sent s) valid1 room1 in
      let stored : store (store s.memory (left h.volatile w.buffer) sent)
            (left h.volatile w1.buffer) bytes
          ≡ store s.memory (left h.volatile w.buffer) (sent ++ bytes) =
        ap (λ l. store (store s.memory (left h.volatile w.buffer) sent) l bytes) after1.dropped
        ∙ store_again s.memory (left h.volatile w.buffer) sent bytes (omega arith) in
      (
        w2,
        e ∙ ap (λ m. (ok w2, record s { memory = m })) stored,
        record {
          dropped =
              after2.dropped
              ∙ ap (drop (length bytes)) after1.dropped
              ∙ drop-drop (length bytes) (length sent) (left h.volatile w.buffer)
              ∙ drop_at _ _ (left h.volatile w.buffer) (sym (length-append sent bytes));
          counted = omega (arith, after1.counted, after2.counted, length-append sent bytes);
        },
      )

  -- The bytes of an optional part.
  abbrev pub some_bytes : Option (List ℕ) → List ℕ
  some_bytes none = []
  some_bytes (some bytes) = bytes

  put_some_more :
      (w w1 : Writer h.volatile) (sent : List ℕ) (bytes : Option (List ℕ)) (s : World h)
      → IsValid h.volatile w.buffer
      → length sent + length (some_bytes bytes) ≤ room h.volatile w.buffer
      → IsAfter h.volatile w.buffer (length sent) w1.buffer
      → (w2 : Writer h.volatile) × (put_some h w1 bytes (after_reply w sent s)
          ≡ (ok w2, after_reply w (sent ++ some_bytes bytes) s))
        × IsAfter h.volatile w.buffer (length (sent ++ some_bytes bytes)) w2.buffer
  unfolding put_some pure
  put_some_more w w1 sent none s valid fits after1 = rw (append-nil sent) (w1, refl, after1)
  put_some_more w w1 sent (some bytes) s valid fits after1 =
      put_more w w1 sent bytes s valid fits after1

  -- What a successful reply is: a header that counts its bytes, and its parts.
  abbrev pub ok_content : {T : Type 0} ⦃b : ByteValued T⦄ → Option T → Option (List ℕ) → List ℕ
  ok_content ⦃b⦄ out body = some_bytes (bytes_of h out) ++ some_bytes body

  abbrev pub ok_header : ℕ → List ℕ → OutHeader
  ok_header unique content = record {
    len = (16 + length content) % 2 ^ 32;
    error = 0;
    unique = unique;
  }

  abbrev pub ok_bytes : {T : Type 0} ⦃b : ByteValued T⦄ → Option T → Option (List ℕ) → ℕ → List ℕ
  ok_bytes ⦃b⦄ out body unique =
      let content = ok_content out body in out_header_bytes (ok_header unique content) ++ content

  size_of_some_lem :
      {T : Type 0} ⦃b : ByteValued T⦄ (out : Option T)
      → size_of_some h out ≡ length (some_bytes (bytes_of h out))
  size_of_some_lem ⦃b⦄ none = refl
  size_of_some_lem ⦃b⦄ (some out) = sym (b.length-as_slice out)

  optional_length_lem : (body : Option (List ℕ)) → optional_length h body ≡ length (some_bytes body)
  optional_length_lem none = refl
  optional_length_lem (some body) = refl

  ok_content_size :
      {T : Type 0} ⦃b : ByteValued T⦄ (out : Option T) (body : Option (List ℕ))
      → size_of_header + size_of_some h out + optional_length h body
        ≡ 16 + length (ok_content out body)
  ok_content_size ⦃b⦄ out body = omega (
    arith,
    size_of_some_lem out,
    optional_length_lem body,
    length-append (some_bytes (bytes_of h out)) (some_bytes body),
  )

  reply_ok_sent :
      {T : Type 0} ⦃b : ByteValued T⦄ (out : Option T) (body : Option (List ℕ)) (unique : ℕ)
      (header : OutHeader) (w : Writer h.volatile) (s : World h)
      → IsValid h.volatile w.buffer
      → 16 + length (ok_content out body) ≤ room h.volatile w.buffer
      → header ≡ ok_header unique (ok_content out body)
      → (do
        w1 ← put h w (out_header_bytes header)
        w2 ← put_some h w1 (bytes_of h out)
        w3 ← put_some h w2 body
        pure (bytes_written h.volatile w3))
          s
        ≡ (
          ok (w.buffer.bytes_consumed + (16 + length (ok_content out body))),
          after_reply w (ok_bytes out body unique) s,
        )
  unfolding pure bytes_written
  reply_ok_sent out body unique header w s valid fits same =
      let head : List ℕ = out_header_bytes header in
      let mid : List ℕ = some_bytes (bytes_of h out) in
      let tail : List ℕ = some_bytes body in
      let size = length-out_header_bytes header in
      let whole = length-append mid tail in
      let (w1, e1, a1) = put_lem w head s valid (omega (arith, size)) in
      let (w2, e2, a2) =
        put_some_more w w1 head (bytes_of h out) s valid (omega (arith, size, whole)) a1 in
      let (w3, e3, a3) =
        put_some_more w w2 (head ++ mid) body s valid
          (omega (arith, size, whole, length-append head mid)) a2 in
      >>=-at_ok (put h w head) _ s e1
      ∙ >>=-at_ok (put_some h w1 (bytes_of h out)) _ (after_reply w head s) e2
      ∙ >>=-at_ok (put_some h w2 body) _ (after_reply w (head ++ mid) s) e3
      ∙ ap₂ (λ n l. (ok n, after_reply w l s))
          (omega (
            arith,
            a3.counted,
            size,
            whole,
            length-append head mid,
            length-append (head ++ mid) tail,
          ))
          (append_assoc head mid tail ∙ ap (λ a. out_header_bytes a ++ (mid ++ tail)) same)

  -- On a valid writer with room for the header, the value and the data, reply_ok puts these bytes
  -- in this order at the addresses of the writer, the length in the header is the number of all
  -- these bytes modulo 2 ^ 32, and it returns the number of bytes of the writer with these added.
  pub reply_ok_lem :
      {T : Type 0} ⦃b : ByteValued T⦄ (out : Option T) (body : Option (List ℕ)) (unique : ℕ)
      (w : Writer h.volatile) (s : World h)
      → IsValid h.volatile w.buffer
      → 16 + length (ok_content out body) ≤ room h.volatile w.buffer
      → reply_ok h out body unique w s ≡ (
        ok (w.buffer.bytes_consumed + (16 + length (ok_content out body))),
        after_reply w (ok_bytes out body unique) s,
      )
  unfolding reply_ok
  reply_ok_lem out body unique w s valid fits =
      reply_ok_sent out body unique _ w s valid fits (
        ap (λ n. record { len = n % 2 ^ 32; error = 0; unique = unique })
          (ok_content_size out body))
