-- ===== src/Filesystem/Table/Inodes.antt =====
-- The inodes that `do_get_metadata` of src/filesystem.rs answers with.
use ovfs.Prelude.{ℕ, ◌≡◌, ◌≢◌, refl, sym, ap, ap₂, ◌∙◌, inl, inr, none, some, Option-cases, List}
use ovfs.Prelude.Dict.{lookup-insert_same}
use ovfs.Prelude.Outcome.{Outcome, ok, panic}
use ovfs.Prelude.Exec.{◌>>=◌, pure, >>=-at_ok, >>=-inv}
use ovfs.Prelude.Dict.{lookup, insert}
use ovfs.Error.{Error}
use ovfs.Filesystem.Table.{IsCoherent}
use ovfs.Filesystem.Table.Steps.{path-opened_file, Keeps-on_storage}
use mathlib.Core.Path.{subst}
use ovfs.Filesystem.Host.{IsSlab, Metadata, EntryMode}
use ovfs.Filesystem.State.{OpenedFile, opened_file, Host, World, on_storage, allocate, map_path}
use ovfs.Filesystem.Table.{path_of, Coherent}
use ovfs.Filesystem.Table.Coherent.{path_of_new}
use ovfs.Filesystem.Operations.{
  file_type_of, with_size, with_ino, inode_or_new, inode_of, do_get_metadata,
}

panic_ne : {E S : Type 0} {a : ℕ} {s s' : S} → ◌≢◌ {A = Outcome E ℕ × S} (panic, s) (ok a, s')
panic_ne e = cc

-- The mode and the number of links that a kind of entry is shown with.
abbrev pub mode_of : EntryMode → ℕ
mode_of EntryMode.dir = 0o040755
mode_of _ = 0o100755

abbrev pub links_of : EntryMode → ℕ
links_of EntryMode.dir = 2
links_of _ = 1

-- What `OpenedFile::new` and the two assignments behind it make of a path, written out.
abbrev pub known_file : List ℕ → ℕ → Metadata → OpenedFile
known_file path inode metadata = record {
  path = path;
  metadata = record {
    ino = inode;
    size = metadata.content_length;
    blocks = 0;
    atime = 0;
    mtime = 0;
    ctime = 0;
    atimensec = 0;
    mtimensec = 0;
    ctimensec = 0;
    mode = mode_of metadata.mode;
    nlink = links_of metadata.mode;
    uid = 1000;
    gid = 1000;
    rdev = 0;
    blksize = 0;
    flags = 0;
  };
}

known_file_lem :
    (path : List ℕ) (inode : ℕ) (metadata : Metadata)
    → with_ino inode
        (with_size metadata.content_length (opened_file (file_type_of metadata.mode) path))
      ≡ known_file path inode metadata
unfolding opened_file
known_file_lem path inode metadata =
    elim metadata.mode
      as (λ m.
        with_ino inode (with_size metadata.content_length (opened_file (file_type_of m) path))
        ≡ known_file path inode (record { mode = m; content_length = metadata.content_length })) [
          | EntryMode.dir ↦ refl
          | EntryMode.file ↦ refl
          | EntryMode.unknown ↦ refl
        ]

module _ (h : Host) where
  inode_of-known :
      (path : List ℕ) (f : OpenedFile) (s : World h) {inode : ℕ}
      → lookup path s.opened_files_map ≡ some inode
      → inode_of h path f s ≡ (ok inode, s)
  unfolding inode_of inode_or_new pure
  inode_of-known path f s e = rw (e, inode_or_new) refl

  stat_lem :
      (path : List ℕ) (s : World h) {metadata : Metadata} {storage : h.core.State}
      → h.core.stat path s.storage ≡ (ok metadata, storage)
      → on_storage h (h.core.stat path) s ≡ (ok metadata, record s { storage = storage })
  unfolding on_storage
  stat_lem path s e = rw e refl

  -- On a path that has an inode in the map, and that the storage can stat, do_get_metadata returns
  -- the attributes with that inode, the size from the storage, the mode and the number of links of
  -- a directory or of a file as the storage says, user and group 1000, and 0 for the rest, and
  -- changes nothing but the state of the storage.
  pub do_get_metadata-known :
      (path : List ℕ) (s : World h) {inode : ℕ} {metadata : Metadata} {storage : h.core.State}
      → lookup path s.opened_files_map ≡ some inode
      → h.core.stat path s.storage ≡ (ok metadata, storage)
      → do_get_metadata h path s
        ≡ (ok (known_file path inode metadata), record s { storage = storage })
  unfolding do_get_metadata pure
  do_get_metadata-known path s {inode} {metadata} {storage} e found =
      >>=-at_ok (on_storage h (h.core.stat path)) _ s (stat_lem path s found)
      ∙ >>=-at_ok (inode_of h path _) _ (record s { storage = storage })
          (inode_of-known path _ (record s { storage = storage }) e)
      ∙ ap (λ f. (ok f, record s { storage = storage })) (known_file_lem path inode metadata)

  inode_of-full :
      (path : List ℕ) (f : OpenedFile) (s : World h)
      → lookup path s.opened_files_map ≡ none
      → h.slab.insert s.opened_files f ≡ none
      → inode_of h path f s ≡ (panic, s)
  unfolding inode_of inode_or_new allocate map_path pure ◌>>=◌
  inode_of-full path f s e full = rw (e, inode_or_new, full, allocate) refl

  inode_of-new :
      (path : List ℕ) (f : OpenedFile) (s : World h) {inode : ℕ} {slots : h.slab.Slots}
      → lookup path s.opened_files_map ≡ none
      → h.slab.insert s.opened_files f ≡ some (inode, slots)
      → inode_of h path f s ≡ (
        ok inode,
        record s { opened_files = slots; opened_files_map = insert path inode s.opened_files_map },
      )
  unfolding inode_of inode_or_new allocate map_path pure ◌>>=◌
  inode_of-new path f s e found = rw (e, inode_or_new, found, allocate) refl

  -- What an inode is for a path in a state.
  pub record Names (path : List ℕ) (s : World h) (inode : ℕ) : Type 0 where
    pub mapped : lookup path s.opened_files_map ≡ some inode
    pub resolved : path_of h s.opened_files inode ≡ some path

  Names-at :
      (path : List ℕ) {i j : ℕ} {s s' : World h}
      → ◌≡◌ {A = Outcome Error ℕ × World h} (ok i, s) (ok j, s')
      → Names path s i
      → Names path s' j
  Names-at path {i} {j} {s} {s'} e n =
      let same_inode : i ≡ j = cc in
      let same_world : s ≡ s' = cc in rw (sym same_inode, sym same_world) n

  module _ (L : IsSlab h.slab) where
    new_named :
        (path : List ℕ) (f : OpenedFile) (s : World h) {j : ℕ} {slots : h.slab.Slots}
        → f.path ≡ path
        → h.slab.insert s.opened_files f ≡ some (j, slots)
        → Names path
            (record s { opened_files = slots; opened_files_map = insert path j s.opened_files_map })
            j
    new_named path f s {j} same added = record {
      mapped = lookup-insert_same path j s.opened_files_map;
      resolved = path_of_new h L f added ∙ ap some same;
    }

    inode_of_lem :
        (path : List ℕ) (f : OpenedFile) (s : World h) {inode : ℕ} {s' : World h}
        → f.path ≡ path
        → Coherent h s
        → inode_of h path f s ≡ (ok inode, s')
        → Names path s' inode
    inode_of_lem path f s same c e = elim (Option-cases (lookup path s.opened_files_map)) [
      | inl unknown ↦ elim (Option-cases (h.slab.insert s.opened_files f)) [
        | inl full ↦ absurd (panic_ne (sym (inode_of-full path f s unknown full) ∙ e))
        | inr ((j, slots), added) ↦
            Names-at path (sym (inode_of-new path f s unknown added) ∙ e)
              (new_named path f s same added)
      ]
      | inr (j, known) ↦
          Names-at path (sym (inode_of-known path f s known) ∙ e)
            (record { mapped = known; resolved = c.known path j known })
    ]

    -- Over an inode table that does what it documents, from a state whose map and table agree: if
    -- do_get_metadata succeeds on a path, then afterwards the map has the returned inode number
    -- for that path, and the file at that inode has that path.
    pub do_get_metadata-Names :
        (path : List ℕ) (s : World h) {f : OpenedFile} {s' : World h}
        → Coherent h s
        → do_get_metadata h path s ≡ (ok f, s')
        → Names path s' f.metadata.ino
    unfolding do_get_metadata pure
    do_get_metadata-Names path s {f} {s'} c e =
        let (metadata, s1, e1, r1) = >>=-inv (on_storage h (h.core.stat path)) _ s e in
        let g : OpenedFile =
          with_size metadata.content_length (opened_file (file_type_of metadata.mode) path) in
        let (inode, s2, e2, r2) = >>=-inv (inode_of h path g) _ s1 r1 in
        let c1 : Coherent h s1 =
          subst (λ (r : Outcome Error Metadata × World h). Coherent h r.1) e1
            ((Keeps-on_storage h (IsCoherent h) (h.core.stat path)).at s c) in
        let named : Names path s2 inode =
          inode_of_lem path g s1 (path-opened_file (file_type_of metadata.mode) path) c1 e2 in
        let same_file : with_ino inode g ≡ f = cc in
        let same_world : s2 ≡ s' = cc in
        Names-at path
          (ap₂ (λ i t. (ok i, t)) (ap (λ (a : OpenedFile). a.metadata.ino) same_file) same_world)
          named
