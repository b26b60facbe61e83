-- ===== src/Filesystem/Table/Fresh.antt =====
-- The handlers of src/filesystem.rs before `init`, when no inode is known.
use ovfs.Prelude.{ℕ, ◌≡◌, ap, ◌∙◌, none, List}
use ovfs.Prelude.Exec.Keeps.{Keeps, keeps_rules}
use ovfs.Stream.{Reader, Writer}
use ovfs.Message.{InHeader}
use ovfs.Filesystem.Host.{IsSlab}
use ovfs.Filesystem.State.{Host, Fs, opened_path}
use ovfs.Filesystem.Reply.{or_reply}
use ovfs.Filesystem.Request.{with_path}
use ovfs.Filesystem.Handlers
use ovfs.Filesystem.DataHandlers
use ovfs.Filesystem.Table.{IsFresh, Fresh}
use ovfs.Filesystem.Table.Calls.{
  Keeps-read_obj, Keeps-read_name, Keeps-some_name, Keeps-answered, Keeps-reply_error,
}

module _ (h : Host) (L : IsSlab h.slab) where
  Keeps-unopened :
      (unique : ℕ) (w : Writer h.volatile) (error inode : ℕ) (k : List ℕ → Fs h ℕ)
      → Keeps (Fresh h) (or_reply h unique w error (opened_path h inode) k)
  unfolding or_reply opened_path
  Keeps-unopened unique w error inode k = record {
    at = λ s fresh.
        let free : h.slab.get s.opened_files inode ≡ none =
          ap (λ slots. h.slab.get slots inode) fresh.no_file ∙ L.get-new inode in
        rw (free, opened_path) ((Keeps-reply_error h (IsFresh h) unique w error).at s fresh);
  }

  Keeps-with_path :
      (in_header : InHeader) (fixed : ℕ) (r : Reader h.volatile) (w : Writer h.volatile)
      (k : List ℕ → Fs h ℕ)
      → Keeps (Fresh h) (with_path h in_header fixed r w k)
  unfolding with_path
  Keeps-with_path in_header fixed r w k = search (
    keeps_rules,
    Keeps-answered h (IsFresh h),
    Keeps-read_name h (IsFresh h),
    Keeps-some_name h (IsFresh h),
    Keeps-unopened,
  )

  ruleset fresh_rules = (keeps_rules, Keeps-unopened, Keeps-with_path, Keeps-read_obj)

  pub Fresh-lookup :
      (in_header : InHeader) (r : Reader h.volatile) (w : Writer h.volatile)
      → Keeps (Fresh h) (Handlers.lookup h in_header r w)
  unfolding Handlers.lookup
  Fresh-lookup in_header r w = search (fresh_rules) depth 10

  pub Fresh-getattr :
      (in_header : InHeader) (r : Reader h.volatile) (w : Writer h.volatile)
      → Keeps (Fresh h) (Handlers.getattr h in_header r w)
  unfolding Handlers.getattr
  Fresh-getattr in_header r w = search (fresh_rules) depth 10

  pub Fresh-create :
      (in_header : InHeader) (r : Reader h.volatile) (w : Writer h.volatile)
      → Keeps (Fresh h) (Handlers.create h in_header r w)
  unfolding Handlers.create
  Fresh-create in_header r w = search (fresh_rules) depth 10

  pub Fresh-unlink :
      (in_header : InHeader) (r : Reader h.volatile) (w : Writer h.volatile)
      → Keeps (Fresh h) (Handlers.unlink h in_header r w)
  unfolding Handlers.unlink
  Fresh-unlink in_header r w = search (fresh_rules) depth 10

  pub Fresh-release :
      (in_header : InHeader) (r : Reader h.volatile) (w : Writer h.volatile)
      → Keeps (Fresh h) (Handlers.release h in_header r w)
  unfolding Handlers.release
  Fresh-release in_header r w = search (fresh_rules) depth 10

  pub Fresh-flush :
      (in_header : InHeader) (r : Reader h.volatile) (w : Writer h.volatile)
      → Keeps (Fresh h) (Handlers.flush h in_header r w)
  unfolding Handlers.flush
  Fresh-flush in_header r w = search (fresh_rules) depth 10

  pub Fresh-open_file :
      (in_header : InHeader) (r : Reader h.volatile) (w : Writer h.volatile)
      → Keeps (Fresh h) (Handlers.open_file h in_header r w)
  unfolding Handlers.open_file
  Fresh-open_file in_header r w = search (fresh_rules) depth 10

  pub Fresh-read :
      (in_header : InHeader) (r : Reader h.volatile) (w : Writer h.volatile)
      → Keeps (Fresh h) (DataHandlers.read h in_header r w)
  unfolding DataHandlers.read
  Fresh-read in_header r w = search (fresh_rules) depth 10

  pub Fresh-write :
      (in_header : InHeader) (r : Reader h.volatile) (w : Writer h.volatile)
      → Keeps (Fresh h) (DataHandlers.write h in_header r w)
  unfolding DataHandlers.write
  Fresh-write in_header r w = search (fresh_rules) depth 10

  pub Fresh-mkdir :
      (in_header : InHeader) (r : Reader h.volatile) (w : Writer h.volatile)
      → Keeps (Fresh h) (DataHandlers.mkdir h in_header r w)
  unfolding DataHandlers.mkdir
  Fresh-mkdir in_header r w = search (fresh_rules) depth 10

  pub Fresh-rmdir :
      (in_header : InHeader) (r : Reader h.volatile) (w : Writer h.volatile)
      → Keeps (Fresh h) (DataHandlers.rmdir h in_header r w)
  unfolding DataHandlers.rmdir
  Fresh-rmdir in_header r w = search (fresh_rules) depth 10

  pub Fresh-releasedir :
      (in_header : InHeader) (r : Reader h.volatile) (w : Writer h.volatile)
      → Keeps (Fresh h) (DataHandlers.releasedir h in_header r w)
  unfolding DataHandlers.releasedir
  Fresh-releasedir in_header r w = search (fresh_rules) depth 10

  pub Fresh-fsyncdir :
      (in_header : InHeader) (r : Reader h.volatile) (w : Writer h.volatile)
      → Keeps (Fresh h) (DataHandlers.fsyncdir h in_header r w)
  unfolding DataHandlers.fsyncdir
  Fresh-fsyncdir in_header r w = search (fresh_rules) depth 10

  pub Fresh-opendir :
      (in_header : InHeader) (r : Reader h.volatile) (w : Writer h.volatile)
      → Keeps (Fresh h) (DataHandlers.opendir h in_header r w)
  unfolding DataHandlers.opendir
  Fresh-opendir in_header r w = search (fresh_rules) depth 10

  pub Fresh-readdir :
      (in_header : InHeader) (r : Reader h.volatile) (w : Writer h.volatile)
      → Keeps (Fresh h) (DataHandlers.readdir h in_header r w)
  unfolding DataHandlers.readdir
  Fresh-readdir in_header r w = search (fresh_rules) depth 10
