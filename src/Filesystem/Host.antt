-- ===== src/Filesystem/Host.antt =====
-- What the file system takes from its libraries: the inode table (`sharded_slab::Slab`), the storage
-- operator (`opendal::Operator`), the slices of guest memory and the C library's messages.
use ovfs.Prelude.{ℕ, ◌≡◌, ◌≢◌, Bool, Option, none, some, List}
use ovfs.Prelude.Outcome.{Exec}
use ovfs.Error.{ErrorKind}

pub record Slab (A : Type 0) : Type 1 where
  pub Slots : Type 0
  pub new : Slots
  -- `none` is a full table
  pub insert : Slots → A → Option (ℕ × Slots)
  pub get : Slots → ℕ → Option A

-- What the library documents: an insertion fills a key that was free, and changes no other.
pub record IsSlab {A : Type 0} (slab : Slab A) : Type 0 where
  pub get-new : (k : ℕ) → slab.get slab.new k ≡ none
  pub get-insert :
      (s : slab.Slots) (a : A) {k : ℕ} {s' : slab.Slots}
      → slab.insert s a ≡ some (k, s')
      → slab.get s' k ≡ some a
  pub get-insert_ne :
      (s : slab.Slots) (a : A) (j : ℕ) {k : ℕ} {s' : slab.Slots}
      → slab.insert s a ≡ some (k, s')
      → k ≢ j
      → slab.get s' j ≡ slab.get s j
  pub insert_free :
      (s : slab.Slots) (a : A) {k : ℕ} {s' : slab.Slots}
      → slab.insert s a ≡ some (k, s')
      → slab.get s k ≡ none

-- What `init` relies on, and the library does not document, as it promises no value of a key: the
-- entry that is put into a table behind a first one gets the key 1, which `init` maps the root to
-- whatever `insert` returned.
pub record SecondKey {A : Type 0} (slab : Slab A) : Type 0 where
  pub second_entry :
      (a b : A) {i : ℕ} {s : slab.Slots}
      → slab.insert slab.new a ≡ some (i, s)
      → (s' : slab.Slots) × (slab.insert s b ≡ some (1, s'))

pub data EntryMode : Type 0 where
  dir file unknown : EntryMode

pub record Metadata : Type 0 where
  pub mode : EntryMode
  pub content_length : ℕ

-- One item of a listing.
pub record Entry : Type 0 where
  pub name : List ℕ
  pub metadata : Metadata

-- The operations that the program awaits, each run to its end. A path is its bytes.
pub record Operator : Type 1 where
  pub State : Type 0
  pub Writer : Type 0
  -- `info().full_capability()`
  pub can_write : Bool
  pub can_append : Bool
  pub stat : List ℕ → Exec State ErrorKind Metadata
  pub delete : List ℕ → Exec State ErrorKind (Unit {0})
  -- `writer_with(path).append(append)`
  pub writer_with : List ℕ → Bool → Exec State ErrorKind Writer
  pub write_from : List ℕ → Exec (Writer × State) ErrorKind (Unit {0})
  pub close : Exec (Writer × State) ErrorKind (Unit {0})
  -- `read_with(path).range(offset..)`
  pub read_with : List ℕ → ℕ → Exec State ErrorKind (List ℕ)
  pub create_dir : List ℕ → Exec State ErrorKind (Unit {0})
  pub list : List ℕ → Exec State ErrorKind (List Entry)
