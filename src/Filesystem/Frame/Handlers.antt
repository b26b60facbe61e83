-- ===== src/Filesystem/Frame/Handlers.antt =====
-- The addresses to which the handlers of Filesystem/Handlers write.
use ovfs.Prelude.{ℕ}
use ovfs.Prelude.Exec.Keeps.{Keeps, Keeps-bind, Keeps-pure, Keeps-if, keeps_rules}
use ovfs.Volatile.{IsVolatile}
use ovfs.Stream.{Reader, Writer}
use ovfs.Message.{InHeader}
use ovfs.Filesystem.State.{Host}
use ovfs.Filesystem.Handlers
use ovfs.Message.Requests.{in_header_byte_valued, read_in_byte_valued}
use ovfs.Filesystem.Frame.Steps.{
  Same, Keeps-allocate, Keeps-map_path, Keeps-unmap_path, Keeps-opened_path,
}
use ovfs.Filesystem.Frame.Calls.{
  Clear, Yields-on_memory, Yields-put, Yields-split, Yields-reply_add_dir_entry, Keeps-or_reply,
  Keeps-reply_error, Keeps-reply_ok, Keeps-read_obj, Keeps-with_path,
}
use ovfs.Filesystem.Frame.Operations.{
  Keeps-do_get_metadata, Keeps-do_set_writer, Keeps-do_release_writer, Keeps-do_delete,
}

pub ruleset clear_rules = (
  keeps_rules, Keeps-or_reply, Keeps-opened_path, Keeps-reply_ok, Keeps-reply_error, Keeps-read_obj,
)

module _ (h : Host) (L : IsVolatile h.volatile) (a b : ℕ) where
  pub Keeps-init :
      (in_header : InHeader) (r : Reader h.volatile) (w : Writer h.volatile)
      → Clear h L a b w
      → Keeps (Same h a b) (Handlers.init h in_header r w)
  unfolding Handlers.init
  Keeps-init in_header r w p =
      search (clear_rules, p, Keeps-allocate h a b, Keeps-map_path h a b) depth 14

  pub Keeps-lookup :
      (in_header : InHeader) (r : Reader h.volatile) (w : Writer h.volatile)
      → Clear h L a b w
      → Keeps (Same h a b) (Handlers.lookup h in_header r w)
  unfolding Handlers.lookup
  Keeps-lookup in_header r w p =
      search (clear_rules, p, Keeps-with_path h L a b, Keeps-do_get_metadata h a b) depth 14

  pub Keeps-getattr :
      (in_header : InHeader) (r : Reader h.volatile) (w : Writer h.volatile)
      → Clear h L a b w
      → Keeps (Same h a b) (Handlers.getattr h in_header r w)
  unfolding Handlers.getattr
  Keeps-getattr in_header r w p = search (clear_rules, p, Keeps-do_get_metadata h a b) depth 14

  pub Keeps-create :
      (in_header : InHeader) (r : Reader h.volatile) (w : Writer h.volatile)
      → Clear h L a b w
      → Keeps (Same h a b) (Handlers.create h in_header r w)
  unfolding Handlers.create
  Keeps-create in_header r w p =
      search
        (
          clear_rules,
          p,
          Keeps-with_path h L a b,
          Keeps-allocate h a b,
          Keeps-map_path h a b,
          Keeps-do_set_writer h a b,
        )
        depth 14

  pub Keeps-unlink :
      (in_header : InHeader) (r : Reader h.volatile) (w : Writer h.volatile)
      → Clear h L a b w
      → Keeps (Same h a b) (Handlers.unlink h in_header r w)
  unfolding Handlers.unlink
  Keeps-unlink in_header r w p =
      search
        (clear_rules, p, Keeps-with_path h L a b, Keeps-do_delete h a b, Keeps-unmap_path h a b)
        depth 14

  pub Keeps-release :
      (in_header : InHeader) (r : Reader h.volatile) (w : Writer h.volatile)
      → Clear h L a b w
      → Keeps (Same h a b) (Handlers.release h in_header r w)
  unfolding Handlers.release
  Keeps-release in_header r w p = search (clear_rules, p, Keeps-do_release_writer h a b) depth 14

  pub Keeps-flush :
      (in_header : InHeader) (r : Reader h.volatile) (w : Writer h.volatile)
      → Clear h L a b w
      → Keeps (Same h a b) (Handlers.flush h in_header r w)
  unfolding Handlers.flush
  Keeps-flush in_header r w p = search (clear_rules, p) depth 14

  pub Keeps-open_file :
      (in_header : InHeader) (r : Reader h.volatile) (w : Writer h.volatile)
      → Clear h L a b w
      → Keeps (Same h a b) (Handlers.open_file h in_header r w)
  unfolding Handlers.open_file
  Keeps-open_file in_header r w p = search (clear_rules, p, Keeps-do_set_writer h a b) depth 14
