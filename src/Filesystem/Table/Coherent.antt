-- ===== src/Filesystem/Table/Coherent.antt =====
-- The agreement of the map from paths to inodes with the slab of inodes, over the steps of the
-- handlers of src/filesystem.rs.
use ovfs.Prelude.{ℕ, ◌≡◌, ◌≢◌, refl, sym, ◌∙◌, ap, Option, none, some, List, [], ◌∷◌}
use ovfs.Prelude.{
  Option-cases, inl, inr, ◌⊎◌, bytes_eq, bytes_eq_sound, Bool, true, false, if◌then◌else◌,
}
use ovfs.Prelude.Exec.{◌>>=◌, ◌>>◌, pure}
use ovfs.Prelude.Exec.Keeps.{Keeps, Keeps-pure}
use ovfs.Prelude.Dict.{Dict, lookup, insert, remove, lookup-insert, lookup-remove}
use ovfs.Filesystem.Host.{IsSlab}
use ovfs.Filesystem.Text.{slash}
use ovfs.Filesystem.State.{OpenedFile, Host, Fs, allocate, map_path, unmap_path}
use ovfs.Filesystem.Operations.{inode_or_new, inode_of}
use ovfs.Filesystem.Table.{path_of, IsCoherent, Coherent}
use mathlib.Core.Option

if_none-some : (b : Bool) (o : Option ℕ) (i : ℕ) → (if b then none else o) ≡ some i → o ≡ some i
if_none-some true o i e = cc
if_none-some false o i e = e

if_some-some :
    (b : Bool) (j : ℕ) (o : Option ℕ) (i : ℕ)
    → (if b then some j else o) ≡ some i
    → ((b ≡ true) × (j ≡ i)) ⊎ (o ≡ some i)
if_some-some true j o i e = inl (refl, Option.some-injective j i e)
if_some-some false j o i e = inr e

module _ (h : Host) (L : IsSlab h.slab) where
  path_of-none :
      (s : h.slab.Slots) (inode : ℕ) → h.slab.get s inode ≡ none → path_of h s inode ≡ none
  path_of-none s inode e = ap (Option.map (λ (f : OpenedFile). f.path)) e

  used_ne_free :
      (s : h.slab.Slots) (i j : ℕ) {path : List ℕ}
      → path_of h s i ≡ some path
      → path_of h s j ≡ none
      → j ≢ i
  used_ne_free s i j p free e = cc

  -- An inode in use keeps its path when the slab takes another entry.
  pub path_of-insert :
      (s : h.slab.Slots) (f : OpenedFile) (inode : ℕ) {j : ℕ} {s' : h.slab.Slots} {path : List ℕ}
      → h.slab.insert s f ≡ some (j, s')
      → path_of h s inode ≡ some path
      → path_of h s' inode ≡ some path
  path_of-insert s f inode {j} e p =
      let ne : j ≢ inode = used_ne_free s inode j p (path_of-none s j (L.insert_free s f e)) in
      ap (Option.map (λ (f : OpenedFile). f.path)) (L.get-insert_ne s f inode e ne) ∙ p

  pub path_of_new :
      {s s' : h.slab.Slots} {j : ℕ} (f : OpenedFile)
      → h.slab.insert s f ≡ some (j, s')
      → path_of h s' j ≡ some f.path
  path_of_new {s} f e = ap (Option.map (λ (g : OpenedFile). g.path)) (L.get-insert s f e)

  IsCoherent-insert :
      {s s' : h.slab.Slots} {paths : Dict ℕ} {j : ℕ} (f : OpenedFile)
      → h.slab.insert s f ≡ some (j, s')
      → IsCoherent h s paths
      → IsCoherent h s' paths
  IsCoherent-insert {s} f e c = record {
    root = path_of-insert s f 1 e c.root;
    known = λ path inode found. path_of-insert s f inode e (c.known path inode found);
  }

  known-insert :
      {s : h.slab.Slots} {paths : Dict ℕ} (path : List ℕ) (inode : ℕ)
      → path_of h s inode ≡ some path
      → IsCoherent h s paths
      → (q : List ℕ) (i : ℕ) → (if bytes_eq path q then some inode else lookup q paths) ≡ some i
      → path_of h s i ≡ some q
  known-insert {s} {paths} path inode p c q i found =
      elim (if_some-some (bytes_eq path q) inode (lookup q paths) i found) [
        | inl (same, e) ↦ rw (sym e, sym (bytes_eq_sound path q same)) p
        | inr e ↦ c.known q i e
      ]

  known-remove :
      {s : h.slab.Slots} {paths : Dict ℕ} (path : List ℕ)
      → IsCoherent h s paths
      → (q : List ℕ) (i : ℕ) → (if bytes_eq path q then none else lookup q paths) ≡ some i
      → path_of h s i ≡ some q
  known-remove {paths = paths} path c q i found =
      c.known q i (if_none-some (bytes_eq path q) (lookup q paths) i found)

  pub IsCoherent-map :
      {s : h.slab.Slots} {paths : Dict ℕ} (path : List ℕ) (inode : ℕ)
      → path_of h s inode ≡ some path
      → IsCoherent h s paths
      → IsCoherent h s (insert path inode paths)
  IsCoherent-map {paths = paths} path inode p c = record {
    root = c.root;
    known = λ q i found.
        known-insert path inode p c q i (sym (lookup-insert path q inode paths) ∙ found);
  }

  IsCoherent-unmap :
      {s : h.slab.Slots} {paths : Dict ℕ} (path : List ℕ)
      → IsCoherent h s paths
      → IsCoherent h s (remove path paths)
  IsCoherent-unmap {paths = paths} path c = record {
    root = c.root;
    known = λ q i found. known-remove path c q i (sym (lookup-remove path q paths) ∙ found);
  }

  pub Keeps-allocate : (f : OpenedFile) → Keeps (Coherent h) (allocate h f)
  unfolding allocate
  Keeps-allocate f = record {
    at = λ s c. elim (Option-cases (h.slab.insert s.opened_files f)) [
      | inl e ↦ rw (e, allocate) c
      | inr ((j, s'), e) ↦ rw (e, allocate) (IsCoherent-insert f e c)
    ];
  }

  pub Keeps-unmap_path : (path : List ℕ) → Keeps (Coherent h) (unmap_path h path)
  unfolding unmap_path
  Keeps-unmap_path path = record { at = λ s c. IsCoherent-unmap path c }

  -- A new inode may take its own path in the map.
  pub Keeps-allocate-map_path :
      {A : Type 0} (f : OpenedFile) (path : List ℕ) (k : ℕ → Fs h A)
      → f.path ≡ path
      → ((inode : ℕ) → Keeps (Coherent h) (k inode))
      → Keeps (Coherent h) (allocate h f >>= λ inode. map_path h path inode >> k inode)
  unfolding allocate map_path ◌>>=◌
  Keeps-allocate-map_path f path k same kk = record {
    at = λ s c. elim (Option-cases (h.slab.insert s.opened_files f)) [
      | inl e ↦ rw (e, allocate) c
      | inr ((j, s'), e) ↦
          rw (e, allocate)
            ((kk j).at
              (record s { opened_files = s'; opened_files_map = insert path j s.opened_files_map })
              (IsCoherent-map path j (path_of_new f e ∙ ap some same) (IsCoherent-insert f e c)))
    ];
  }

  pub Keeps-inode_of :
      (path : List ℕ) (f : OpenedFile) → f.path ≡ path → Keeps (Coherent h) (inode_of h path f)
  unfolding inode_of inode_or_new pure
  Keeps-inode_of path f same = record {
    at = λ s c. elim (Option-cases (lookup path s.opened_files_map)) [
      | inl e ↦
          rw (e, inode_or_new)
            ((Keeps-allocate-map_path f path (λ inode. pure inode) same
                (λ inode. Keeps-pure inode)).at
              s c)
      | inr (inode, e) ↦ rw (e, inode_or_new) c
    ];
  }

  pub Keeps-map_root :
      {A : Type 0} (k : Fs h A)
      → Keeps (Coherent h) k
      → Keeps (Coherent h) (map_path h (slash ∷ []) 1 >> k)
  unfolding map_path ◌>>=◌
  Keeps-map_root k kk = record {
    at = λ s c.
        kk.at (record s { opened_files_map = insert (slash ∷ []) 1 s.opened_files_map })
          (IsCoherent-map (slash ∷ []) 1 c.root c);
  }
