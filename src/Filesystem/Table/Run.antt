-- ===== src/Filesystem/Table/Run.antt =====
-- The states that a mounted file system of src/filesystem.rs reaches, and its tables in them.
use ovfs.Prelude.{
  ℕ, ◌≡◌, refl, sym, ap, ◌∙◌, none, some, List, [], ◌∷◌, Option-cases, inl, inr, ◌⊎◌,
}
use ovfs.Prelude.Exec.{◌>>=◌, ◌>>◌}
use ovfs.Prelude.Exec.Keeps.{Keeps, Keeps-bind, Keeps-pure, keeps_rules}
use ovfs.Prelude.Dict.{lookup, insert}
use ovfs.Memory.{Memory}
use ovfs.Stream.{Reader, Writer}
use ovfs.Message.{InHeader, Opcode}
use ovfs.Filesystem.Host.{IsSlab, SecondKey}
use ovfs.Filesystem.Text.{slash}
use ovfs.Filesystem.State.{OpenedFile, Host, World, Fs, new, allocate, map_path}
use ovfs.Filesystem.Handlers
use ovfs.Filesystem.Dispatch.{handle, handle_message}
use ovfs.Filesystem.Table.{path_of, IsFresh, Fresh, IsCoherent, Coherent, Tables}
use ovfs.Filesystem.Table.Calls.{IsKept, Keeps-read_obj, Keeps-reply_ok, Keeps-reply_error}
use ovfs.Filesystem.Table.Coherent.{
  IsCoherent-map, path_of_new, Keeps-allocate, Keeps-unmap_path, Keeps-inode_of,
  Keeps-allocate-map_path, Keeps-map_root,
}
use ovfs.Filesystem.Table.Handlers as Kept
use ovfs.Filesystem.Table.Fresh

-- The states of a file system over `storage`: the guest changes its memory between the messages that
-- it has the file system handle.
pub data Reachable (h : Host) (storage : h.core.State) : World h → Type 0 where
  mounted : (memory : Memory) → Reachable h storage (new h memory storage)
  guest_writes :
      {s : World h} (memory : Memory)
      → Reachable h storage s
      → Reachable h storage (record s { memory = memory })
  serves :
      {s : World h} (r : Reader h.volatile) (w : Writer h.volatile)
      → Reachable h storage s
      → Reachable h storage (handle_message h r w s).1

module _ (h : Host) (L : IsSlab h.slab) (K : SecondKey h.slab) where
  IsKept-Coherent : IsKept h (IsCoherent h)
  IsKept-Coherent = record {
    at_inode_of = Keeps-inode_of h L;
    at_new_entry = Keeps-allocate-map_path h L;
    at_unmap_path = Keeps-unmap_path h L;
  }

  Keeps-both :
      {A : Type 0} {m : Fs h A} → Keeps (Fresh h) m → Keeps (Coherent h) m → Keeps (Tables h) m
  Keeps-both kf kc = record {
    at = λ s p. elim p [ inl fresh ↦ inl (kf.at s fresh) | inr coherent ↦ inr (kc.at s coherent) ];
  }

  -- An empty map knows no path.
  unknown :
      (s : h.slab.Slots) (path : List ℕ) (inode : ℕ)
      → lookup path [] ≡ some inode
      → path_of h s inode ≡ some path
  unfolding lookup
  unknown s path inode found = cc

  IsCoherent-mounted :
      {s : h.slab.Slots} {s' : h.slab.Slots} (f : OpenedFile)
      → f.path ≡ slash ∷ []
      → h.slab.insert s f ≡ some (1, s')
      → IsCoherent h s' (insert (slash ∷ []) 1 [])
  IsCoherent-mounted {s' = s'} f root e =
      let p : path_of h _ 1 ≡ some (slash ∷ []) = path_of_new h L f e ∙ ap some root in
      IsCoherent-map h L (slash ∷ []) 1 p
        (record { root = p; known = λ path inode found. unknown s' path inode found })

  unmounted :
      (f : OpenedFile) (k : Fs h ℕ) (s : World h)
      → h.slab.insert s.opened_files f ≡ none
      → Fresh h s
      → Fresh h ((allocate h f >> (allocate h f >> (map_path h (slash ∷ []) 1 >> k))) s).1
  unfolding allocate ◌>>=◌
  unmounted f k s e fresh = rw (e, allocate) fresh

  mount_two :
      (f : OpenedFile) (k : Fs h ℕ) (s : World h) {i : ℕ} {s1 s2 : h.slab.Slots}
      → h.slab.insert s.opened_files f ≡ some (i, s1)
      → h.slab.insert s1 f ≡ some (1, s2)
      → (allocate h f >> (allocate h f >> (map_path h (slash ∷ []) 1 >> k))) s
        ≡ k (record s {
          opened_files = s2;
          opened_files_map = insert (slash ∷ []) 1 s.opened_files_map;
        })
  unfolding allocate map_path ◌>>=◌
  mount_two f k s e1 e2 = rw (e1, allocate, e2, allocate) refl

  mount_both :
      (f : OpenedFile) (k : Fs h ℕ)
      → f.path ≡ slash ∷ []
      → Keeps (Coherent h) k
      → (s : World h) → Fresh h s
      → {i : ℕ} {s1 s2 : h.slab.Slots} → h.slab.insert s.opened_files f ≡ some (i, s1)
      → h.slab.insert s1 f ≡ some (1, s2)
      → Tables h ((allocate h f >> (allocate h f >> (map_path h (slash ∷ []) 1 >> k))) s).1
  mount_both f k root kk s fresh {s2 = s2} e1 e2 =
      let paths : IsCoherent h s2 (insert (slash ∷ []) 1 s.opened_files_map) =
        rw fresh.no_path (IsCoherent-mounted f root e2) in
      rw (mount_two f k s e1 e2) (
        inr (
          kk.at
            (record s {
              opened_files = s2;
              opened_files_map = insert (slash ∷ []) 1 s.opened_files_map;
            })
            paths))

  mount-Fresh :
      (f : OpenedFile) (k : Fs h ℕ)
      → f.path ≡ slash ∷ []
      → Keeps (Coherent h) k
      → (s : World h) → Fresh h s
      → Tables h ((allocate h f >> (allocate h f >> (map_path h (slash ∷ []) 1 >> k))) s).1
  mount-Fresh f k root kk s fresh = elim (Option-cases (h.slab.insert s.opened_files f)) [
    | inl e ↦ inl (unmounted f k s e fresh)
    | inr ((i, s1), e) ↦
        let (s2, e2) = K.second_entry f f (ap (λ t. h.slab.insert t f) (sym fresh.no_file) ∙ e) in
        mount_both f k root kk s fresh e e2
  ]

  mount-Coherent :
      (f : OpenedFile) (k : Fs h ℕ)
      → Keeps (Coherent h) k
      → Keeps (Coherent h) (allocate h f >> (allocate h f >> (map_path h (slash ∷ []) 1 >> k)))
  mount-Coherent f k kk =
      Keeps-bind _ _ (Keeps-allocate h L f)
        λ _. Keeps-bind _ _ (Keeps-allocate h L f) λ _. Keeps-map_root h L k kk

  Keeps-mount :
      (f : OpenedFile) (k : Fs h ℕ)
      → f.path ≡ slash ∷ []
      → Keeps (Coherent h) k
      → Keeps (Tables h) (allocate h f >> (allocate h f >> (map_path h (slash ∷ []) 1 >> k)))
  Keeps-mount f k root kk = record {
    at = λ s p. elim p [
      | inl fresh ↦ mount-Fresh f k root kk s fresh
      | inr coherent ↦ inr ((mount-Coherent f k kk).at s coherent)
    ];
  }

  Keeps-init :
      (in_header : InHeader) (r : Reader h.volatile) (w : Writer h.volatile)
      → Keeps (Tables h) (Handlers.init h in_header r w)
  unfolding Handlers.init
  Keeps-init in_header r w = search (
    keeps_rules,
    Keeps-mount,
    Keeps-read_obj h (λ s p. IsFresh h s p ⊎ IsCoherent h s p),
    Keeps-reply_error h (λ s p. IsFresh h s p ⊎ IsCoherent h s p),
    Keeps-reply_ok h (IsCoherent h),
  )

  Keeps-handle :
      (opcode : Opcode) (in_header : InHeader) (r : Reader h.volatile) (w : Writer h.volatile)
      → Keeps (Tables h) (handle h opcode in_header r w)
  unfolding handle Handlers.destory Handlers.forget Handlers.setattr
  Keeps-handle Opcode.init in_header r w = Keeps-init in_header r w
  Keeps-handle Opcode.destroy in_header r w = Keeps-pure 0
  Keeps-handle Opcode.forget in_header r w = Keeps-pure 0
  Keeps-handle Opcode.lookup in_header r w =
      Keeps-both (Fresh.Fresh-lookup h L in_header r w)
        (Kept.Keeps-lookup h (IsCoherent h) IsKept-Coherent in_header r w)
  Keeps-handle Opcode.getattr in_header r w =
      Keeps-both (Fresh.Fresh-getattr h L in_header r w)
        (Kept.Keeps-getattr h (IsCoherent h) IsKept-Coherent in_header r w)
  Keeps-handle Opcode.setattr in_header r w =
      Keeps-both (Fresh.Fresh-getattr h L in_header r w)
        (Kept.Keeps-getattr h (IsCoherent h) IsKept-Coherent in_header r w)
  Keeps-handle Opcode.create in_header r w =
      Keeps-both (Fresh.Fresh-create h L in_header r w)
        (Kept.Keeps-create h (IsCoherent h) IsKept-Coherent in_header r w)
  Keeps-handle Opcode.unlink in_header r w =
      Keeps-both (Fresh.Fresh-unlink h L in_header r w)
        (Kept.Keeps-unlink h (IsCoherent h) IsKept-Coherent in_header r w)
  Keeps-handle Opcode.release in_header r w =
      Keeps-both (Fresh.Fresh-release h L in_header r w)
        (Kept.Keeps-release h (IsCoherent h) IsKept-Coherent in_header r w)
  Keeps-handle Opcode.flush in_header r w =
      Keeps-both (Fresh.Fresh-flush h L in_header r w)
        (Kept.Keeps-flush h (IsCoherent h) IsKept-Coherent in_header r w)
  Keeps-handle Opcode.open_ in_header r w =
      Keeps-both (Fresh.Fresh-open_file h L in_header r w)
        (Kept.Keeps-open_file h (IsCoherent h) IsKept-Coherent in_header r w)
  Keeps-handle Opcode.read in_header r w =
      Keeps-both (Fresh.Fresh-read h L in_header r w)
        (Kept.Keeps-read h (IsCoherent h) IsKept-Coherent in_header r w)
  Keeps-handle Opcode.write in_header r w =
      Keeps-both (Fresh.Fresh-write h L in_header r w)
        (Kept.Keeps-write h (IsCoherent h) IsKept-Coherent in_header r w)
  Keeps-handle Opcode.mkdir in_header r w =
      Keeps-both (Fresh.Fresh-mkdir h L in_header r w)
        (Kept.Keeps-mkdir h (IsCoherent h) IsKept-Coherent in_header r w)
  Keeps-handle Opcode.rmdir in_header r w =
      Keeps-both (Fresh.Fresh-rmdir h L in_header r w)
        (Kept.Keeps-rmdir h (IsCoherent h) IsKept-Coherent in_header r w)
  Keeps-handle Opcode.releasedir in_header r w =
      Keeps-both (Fresh.Fresh-releasedir h L in_header r w)
        (Kept.Keeps-releasedir h (IsCoherent h) IsKept-Coherent in_header r w)
  Keeps-handle Opcode.fsyncdir in_header r w =
      Keeps-both (Fresh.Fresh-fsyncdir h L in_header r w)
        (Kept.Keeps-fsyncdir h (IsCoherent h) IsKept-Coherent in_header r w)
  Keeps-handle Opcode.opendir in_header r w =
      Keeps-both (Fresh.Fresh-opendir h L in_header r w)
        (Kept.Keeps-opendir h (IsCoherent h) IsKept-Coherent in_header r w)
  Keeps-handle Opcode.readdir in_header r w =
      Keeps-both (Fresh.Fresh-readdir h L in_header r w)
        (Kept.Keeps-readdir h (IsCoherent h) IsKept-Coherent in_header r w)

  Tables-Reachable : (storage : h.core.State) {s : World h} → Reachable h storage s → Tables h s
  Tables-Reachable storage (mounted memory) = inl (record { no_file = refl; no_path = refl })
  Tables-Reachable storage (guest_writes memory reached) = Tables-Reachable storage reached
  Tables-Reachable storage (serves {s} r w reached) =
      (Kept.Keeps-handle_message h (λ s p. IsFresh h s p ⊎ IsCoherent h s p) r w
          λ o in_header r'. Keeps-handle o in_header r' w).at
        s (Tables-Reachable storage reached)

  -- Over an inode table that does what it documents, and that gives its second entry the key 1,
  -- which init relies on and the table does not document, in every state that a new file system
  -- reaches by handling messages while the guest changes its memory in between: if the map has an
  -- inode for a path, then the table has a file at that inode, and the path of that file is that
  -- path.
  pub mapped_inode-path :
      (storage : h.core.State) {s : World h} (path : List ℕ) (inode : ℕ)
      → Reachable h storage s
      → lookup path s.opened_files_map ≡ some inode
      → path_of h s.opened_files inode ≡ some path
  mapped_inode-path storage path inode reached found = elim (Tables-Reachable storage reached) [
    | inl fresh ↦ unknown _ path inode (sym (ap (lookup path) fresh.no_path) ∙ found)
    | inr coherent ↦ coherent.known path inode found
  ]
