-- ===== src/Filesystem/Reply/Entries.antt =====
-- The directory entries that `reply_add_dir_entry` of src/filesystem.rs puts into guest memory.
use ovfs.Prelude.{
  ℕ, zero, suc, ◌+◌, ◌-◌, ◌*◌, ◌/◌, ◌≤◌, ◌<◌, ◌≡◌, ◌%◌, ◌^◌, refl, sym, ap, ◌∙◌, arith, bit_and,
}
use ovfs.Prelude.{
  List, ◌∷◌, ◌++◌, length, take, length-take, lt→ltb, replicate, length-replicate, length-append,
  append-nil, ltb, if◌then◌else◌,
}
use ovfs.Prelude.Bits.{bit_and-align}
use ovfs.Prelude.Outcome.{ok}
use ovfs.Prelude.Exec.{>>=-at_ok, pure}
use ovfs.Volatile.{IsVolatile}
use ovfs.Chain.Flat.{room, IsValid}
use ovfs.Chain.Consume.{IsAfter, IsAfter-at}
use ovfs.Stream.{Writer}
use ovfs.Message.Replies.{dir_entry_out_bytes, length-dir_entry_out_bytes}
use ovfs.Filesystem.State.{Host, World}
use ovfs.Filesystem.Reply.{
  put, DirEntry, dir_entry_out, aligned, dirent_padding, reply_add_dir_entry,
}
use ovfs.Filesystem.Reply.Bytes.{after_reply, put_lem, put_more}

-- `n` rounded up to a multiple of 8.
abbrev pub round_up : ℕ → ℕ
round_up n = (n + 7) / 8 * 8

aligned_lem : (n : ℕ) → n + 7 < 2 ^ 64 → aligned n ≡ round_up n
aligned_lem n h =
    let low : (n + 7) % 2 ^ 64 ≡ n + 7 = omega arith in
    ap (λ a. bit_and a (2 ^ 64 - 8)) low ∙ bit_and-align (n + 7) h

take-replicate : (n m : ℕ) → n ≤ m → take n (replicate {A = ℕ} m 0) ≡ replicate n 0
take-replicate zero m h = refl
take-replicate (suc n) zero h = absurd (omega arith)
take-replicate (suc n) (suc m) h = ap (λ l. 0 ∷ l) (take-replicate n m (omega arith))

-- The bytes of an entry: its header, its name and zeros up to a multiple of 8.
abbrev pub entry_bytes : DirEntry → List ℕ
entry_bytes entry =
    let len = 24 + length entry.name in
    (dir_entry_out_bytes (dir_entry_out entry) ++ entry.name) ++ replicate (round_up len - len) 0

module _ (h : Host) (L : IsVolatile h.volatile) where
  put_padding :
      (w w1 : Writer h.volatile) (sent : List ℕ) (padding : ℕ) (s : World h)
      → IsValid h.volatile w.buffer
      → padding ≤ 8
      → length sent + padding ≤ room h.volatile w.buffer
      → IsAfter h.volatile w.buffer (length sent) w1.buffer
      → (w2 : Writer h.volatile) × ((if ltb 0 padding
              then put h w1 (take padding dirent_padding)
              else pure w1)
            (after_reply h L w sent s)
          ≡ (ok w2, after_reply h L w (sent ++ replicate padding 0) s))
        × IsAfter h.volatile w.buffer (length (sent ++ replicate padding 0)) w2.buffer
  unfolding pure
  put_padding w w1 sent zero s valid small fits after1 = rw (append-nil sent) (w1, refl, after1)
  put_padding w w1 sent (suc n) s valid small fits after1 =
      rw (sym (take-replicate (suc n) 8 small), lt→ltb 0 (suc n) (omega arith))
        (put_more h L w w1 sent (take (suc n) dirent_padding) s valid
          (omega (arith, length-take (suc n) dirent_padding)) after1)

  -- On a valid writer with room for the entry rounded up to a multiple of 8, reply_add_dir_entry
  -- writes the header of the entry, its name, and zeros up to that multiple; it returns that
  -- multiple, and the writer has moved on by it.
  pub reply_add_dir_entry_lem :
      (w : Writer h.volatile) (entry : DirEntry) (s : World h)
      → IsValid h.volatile w.buffer
      → round_up (24 + length entry.name) ≤ room h.volatile w.buffer
      → (w' : Writer h.volatile) × (reply_add_dir_entry h w entry s
          ≡ (ok (round_up (24 + length entry.name), w'), after_reply h L w (entry_bytes entry) s))
        × IsAfter h.volatile w.buffer (round_up (24 + length entry.name)) w'.buffer
  unfolding reply_add_dir_entry pure
  reply_add_dir_entry_lem w entry s valid fits =
      let head : List ℕ = dir_entry_out_bytes (dir_entry_out entry) in
      let len : ℕ = 24 + length entry.name in
      let size = length-dir_entry_out_bytes (dir_entry_out entry) in
      let total : aligned len ≡ round_up len = aligned_lem len (omega (arith, valid.fits)) in
      let (w1, e1, a1) = put_lem h L w head s valid (omega (arith, size)) in
      let (w2, e2, a2) = put_more h L w w1 head entry.name s valid (omega (arith, size)) a1 in
      let both = length-append head entry.name in
      let (w3, e3, a3) =
        put_padding w w2 (head ++ entry.name) (aligned len - len) s valid (omega (arith, total))
          (omega (arith, total, size, both)) a2 in
      (
        w3,
        >>=-at_ok (put h w head) _ s e1
            ∙ >>=-at_ok (put h w1 entry.name) _ (after_reply h L w head s) e2
            ∙ >>=-at_ok
                (if ltb 0 (aligned len - len)
                  then put h w2 (take (aligned len - len) dirent_padding)
                  else pure w2)
                _ (after_reply h L w (head ++ entry.name) s) e3
            ∙ ap
                (λ t.
                  (ok (t, w3), after_reply h L w ((head ++ entry.name) ++ replicate (t - len) 0) s))
                total,
        IsAfter-at h.volatile (round_up len)
            (omega (
              arith,
              total,
              size,
              both,
              length-append (head ++ entry.name) (replicate (aligned len - len) 0),
              length-replicate {A = ℕ} (aligned len - len) 0,
            ))
            a3,
      )
