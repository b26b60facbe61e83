-- ===== src/Filesystem/Frame/DataHandlers.antt =====
-- The addresses to which the handlers of Filesystem/DataHandlers write.
use ovfs.Prelude.{ℕ, List, [], ◌∷◌, ◌+◌}
use ovfs.Prelude.Exec.Keeps.{Keeps, Keeps-bind, Keeps-pure, Keeps-if}
use ovfs.Prelude.Exec.Yields.{Yields-Keeps, Keeps-bind_with}
use ovfs.Volatile.{IsVolatile}
use ovfs.Libc
use ovfs.Stream.{Reader, Writer}
use ovfs.Buffer.Frame.{Yields-write_from_at}
use ovfs.Message.{InHeader}
use ovfs.Filesystem.State.{Host}
use ovfs.Filesystem.Reply.{DirEntry, size_of_header}
use ovfs.Filesystem.DataHandlers
use ovfs.Filesystem.DataHandlers.{buffered, read_buffer, put_entries, put_header}
use ovfs.Prelude.{length}
use ovfs.Message.Requests.{in_header_byte_valued, read_in_byte_valued}
use ovfs.Filesystem.Frame.Steps.{
  Same, Keeps-allocate, Keeps-map_path, Keeps-unmap_path, Keeps-opened_path,
}
use ovfs.Filesystem.Frame.Calls.{
  Clear, Yields-on_memory, Yields-put, Yields-split, Yields-reply_add_dir_entry, Keeps-or_reply,
  Keeps-read_obj, Keeps-with_path,
}
use ovfs.Filesystem.Frame.Operations.{
  Keeps-do_delete, Keeps-do_read, Keeps-do_write, Keeps-do_create_dir, Keeps-do_readdir,
}
use ovfs.Filesystem.Frame.Handlers.{clear_rules}

module _ (h : Host) (L : IsVolatile h.volatile) (a b : ℕ) where
  pub Keeps-read :
      (in_header : InHeader) (r : Reader h.volatile) (w : Writer h.volatile)
      → Clear h L a b w
      → Keeps (Same h a b) (DataHandlers.read h in_header r w)
  unfolding DataHandlers.read
  Keeps-read in_header r w p = Keeps-bind _ _ (Keeps-read_obj h L a b r) λ q.
      Keeps-or_reply h L a b in_header.unique w Libc.enoent _ _ p
        (Keeps-opened_path h a b in_header.nodeid)
        λ path.
          Keeps-or_reply h L a b in_header.unique w Libc.enoent _ _ p (Keeps-do_read h a b path _)
            λ bytes. Keeps-bind_with _ _ (Yields-split h L a b size_of_header w p) λ halves clear.
              Keeps-bind _ _
                (Yields-Keeps _ (
                  Yields-on_memory h L a b _ _
                    (Yields-write_from_at h.volatile L a b halves.1 _ (length bytes) clear.1)))
                λ moved.
                  Keeps-bind_with _ _ (Yields-put h L a b halves.0 _ clear.0) λ w1 p1. Keeps-pure _

  Keeps-read_buffer : (r : Reader h.volatile) (size : ℕ) → Keeps (Same h a b) (read_buffer h r size)
  unfolding read_buffer
  Keeps-read_buffer r size = record { at = λ s same. same }

  pub Keeps-write :
      (in_header : InHeader) (r : Reader h.volatile) (w : Writer h.volatile)
      → Clear h L a b w
      → Keeps (Same h a b) (DataHandlers.write h in_header r w)
  unfolding DataHandlers.write
  Keeps-write in_header r w p =
      search (clear_rules, p, Keeps-read_buffer, Keeps-do_write h a b) depth 14

  pub Keeps-mkdir :
      (in_header : InHeader) (r : Reader h.volatile) (w : Writer h.volatile)
      → Clear h L a b w
      → Keeps (Same h a b) (DataHandlers.mkdir h in_header r w)
  unfolding DataHandlers.mkdir
  Keeps-mkdir in_header r w p =
      search
        (
          clear_rules,
          p,
          Keeps-with_path h L a b,
          Keeps-allocate h a b,
          Keeps-map_path h a b,
          Keeps-do_create_dir h a b,
        )
        depth 14

  pub Keeps-rmdir :
      (in_header : InHeader) (r : Reader h.volatile) (w : Writer h.volatile)
      → Clear h L a b w
      → Keeps (Same h a b) (DataHandlers.rmdir h in_header r w)
  unfolding DataHandlers.rmdir
  Keeps-rmdir in_header r w p =
      search
        (clear_rules, p, Keeps-with_path h L a b, Keeps-do_delete h a b, Keeps-unmap_path h a b)
        depth 14

  pub Keeps-releasedir :
      (in_header : InHeader) (r : Reader h.volatile) (w : Writer h.volatile)
      → Clear h L a b w
      → Keeps (Same h a b) (DataHandlers.releasedir h in_header r w)
  unfolding DataHandlers.releasedir
  Keeps-releasedir in_header r w p = search (clear_rules, p) depth 14

  pub Keeps-fsyncdir :
      (in_header : InHeader) (r : Reader h.volatile) (w : Writer h.volatile)
      → Clear h L a b w
      → Keeps (Same h a b) (DataHandlers.fsyncdir h in_header r w)
  unfolding DataHandlers.fsyncdir
  Keeps-fsyncdir in_header r w p = search (clear_rules, p) depth 14

  pub Keeps-opendir :
      (in_header : InHeader) (r : Reader h.volatile) (w : Writer h.volatile)
      → Clear h L a b w
      → Keeps (Same h a b) (DataHandlers.opendir h in_header r w)
  unfolding DataHandlers.opendir
  Keeps-opendir in_header r w p = search (clear_rules, p) depth 14

  Keeps-put_entries :
      (w : Writer h.volatile) (total : ℕ) (entries : List DirEntry)
      → Clear h L a b w
      → Keeps (Same h a b) (put_entries h w total entries)
  unfolding put_entries
  Keeps-put_entries w total [] p = Keeps-pure total
  Keeps-put_entries w total (entry ∷ entries) p =
      Keeps-bind_with _ _ (Yields-reply_add_dir_entry h L a b w entry p)
        λ done q. Keeps-put_entries done.1 (total + done.0) entries q

  Keeps-put_header :
      (unique : ℕ) (w : Writer h.volatile) (written : ℕ)
      → Clear h L a b w
      → Keeps (Same h a b) (put_header h unique w written)
  unfolding put_header
  Keeps-put_header unique w written p =
      Keeps-bind_with _ _ (Yields-put h L a b w _ p) λ w1 p1. Keeps-pure _

  pub Keeps-readdir :
      (in_header : InHeader) (r : Reader h.volatile) (w : Writer h.volatile)
      → Clear h L a b w
      → Keeps (Same h a b) (DataHandlers.readdir h in_header r w)
  unfolding DataHandlers.readdir
  Keeps-readdir in_header r w p =
      Keeps-or_reply h L a b in_header.unique w Libc.enoent _ _ p
        (Keeps-opened_path h a b in_header.nodeid)
        λ path. Keeps-bind _ _ (Keeps-read_obj h L a b r) λ q.
          Keeps-bind_with _ _ (Yields-split h L a b size_of_header w p) λ halves clear.
            Keeps-or_reply h L a b in_header.unique halves.0 Libc.enoent _ _ clear.0
              (Keeps-do_readdir h a b path)
              λ entries. Keeps-if _ _ _ (Keeps-put_header _ halves.0 0 clear.0) (
                Keeps-or_reply h L a b in_header.unique halves.0 Libc.eio _ _ clear.0
                  (Keeps-put_entries halves.1 0 entries clear.1)
                  λ total. Keeps-put_header _ halves.0 total clear.0)
