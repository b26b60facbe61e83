-- ===== src/Filesystem/Table.antt =====
-- The two tables of `Filesystem`: the slab of inodes, and the map from paths to inodes. The modules
-- below are about what the requests do to them.
pub mod Steps
pub mod Calls
pub mod Handlers
pub mod Coherent
pub mod Fresh
pub mod Run
pub mod Inodes
use ovfs.Prelude.{ℕ, ◌≡◌, ◌⊎◌, Option, some, List, [], ◌∷◌}
use ovfs.Prelude.Dict.{Dict, lookup}
use ovfs.Filesystem.Text.{slash}
use ovfs.Filesystem.State.{OpenedFile, Host, World}
use mathlib.Core.Option

module _ (h : Host) where
  -- The path of an inode.
  abbrev pub path_of : h.slab.Slots → ℕ → Option (List ℕ)
  path_of slots inode = Option.map (λ (f : OpenedFile). f.path) (h.slab.get slots inode)

  -- Inode 1 is the root, and the inode that the map has for a path is one of that path.
  pub record IsCoherent (slots : h.slab.Slots) (paths : Dict ℕ) : Type 0 where
    pub root : path_of slots 1 ≡ some (slash ∷ [])
    pub known :
        (path : List ℕ) (inode : ℕ)
        → lookup path paths ≡ some inode
        → path_of slots inode ≡ some path

  abbrev pub Coherent : World h → Type 0
  Coherent s = IsCoherent s.opened_files s.opened_files_map

  -- Nothing was mounted yet.
  pub record IsFresh (slots : h.slab.Slots) (paths : Dict ℕ) : Type 0 where
    pub no_file : slots ≡ h.slab.new
    pub no_path : paths ≡ []

  abbrev pub Fresh : World h → Type 0
  Fresh s = IsFresh s.opened_files s.opened_files_map

  abbrev pub Tables : World h → Type 0
  Tables s = Fresh s ⊎ Coherent s
