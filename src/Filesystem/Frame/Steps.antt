-- ===== src/Filesystem/Frame/Steps.antt =====
-- Guest memory along the steps of src/filesystem.rs that do not write it.
use ovfs.Prelude.{ℕ, ◌≡◌, List, Option-cases, Bool-cases, inl, inr, ltb}
use ovfs.Prelude.Outcome.{Exec}
use ovfs.Prelude.Exec.Keeps.{Keeps}
use ovfs.Error.{ErrorKind}
use ovfs.Memory.{Memory}
use ovfs.Stream.{IoResult}
use ovfs.Filesystem.State.{
  OpenedFile, Host, World, from_memory, on_storage, allocate, map_path, unmap_path, opened_path,
  sub_usize,
}

module _ (h : Host) (a b : ℕ) where
  -- The byte of guest memory at `a` is still `b`.
  abbrev pub Same : World h → Type 0
  Same s = s.memory a ≡ b

  pub Keeps-from_memory : {A : Type 0} (m : Memory → IoResult A) → Keeps Same (from_memory h m)
  unfolding from_memory
  Keeps-from_memory m = record { at = λ s same. same }

  pub Keeps-on_storage :
      {A : Type 0} (m : Exec h.core.State ErrorKind A) → Keeps Same (on_storage h m)
  unfolding on_storage
  Keeps-on_storage m = record { at = λ s same. same }

  pub Keeps-allocate : (f : OpenedFile) → Keeps Same (allocate h f)
  unfolding allocate
  Keeps-allocate f = record {
    at = λ s same. elim (Option-cases (h.slab.insert s.opened_files f)) [
      | inl e ↦ rw (e, allocate) same
      | inr (new, e) ↦ rw (e, allocate) same
    ];
  }

  pub Keeps-map_path : (path : List ℕ) (inode : ℕ) → Keeps Same (map_path h path inode)
  unfolding map_path
  Keeps-map_path path inode = record { at = λ s same. same }

  pub Keeps-unmap_path : (path : List ℕ) → Keeps Same (unmap_path h path)
  unfolding unmap_path
  Keeps-unmap_path path = record { at = λ s same. same }

  pub Keeps-opened_path : (inode : ℕ) → Keeps Same (opened_path h inode)
  unfolding opened_path
  Keeps-opened_path inode = record {
    at = λ s same. elim (Option-cases (h.slab.get s.opened_files inode)) [
      | inl e ↦ rw (e, opened_path) same
      | inr (f, e) ↦ rw (e, opened_path) same
    ];
  }

  pub Keeps-sub_usize : (n m : ℕ) → Keeps Same (sub_usize h n m)
  unfolding sub_usize
  Keeps-sub_usize n m = record {
    at = λ s same. elim (Bool-cases (ltb n m)) [ inl e ↦ rw e same | inr e ↦ rw e same ];
  }
