-- ===== src/Config/FileSystem.antt =====
-- What src/config.cpp relies on of the file system: a record of its operations and their laws.
use ircord_client.Base.{ℕ, ◌≡◌, Bool, true, false, Option, some, Text}

-- `std::filesystem::remove_all` and `remove`: how many entries went, or the text of the exception.
pub data Removal : Type 0 where
  removed : ℕ → Removal
  failed : Text → Removal

-- A call gives the disk as it is then. `write` makes the parent directories and puts a whole file,
-- none where nothing comes of it. `contents` is none for what cannot be read as a file.
pub record Files (Disk : Type 0) : Type 0 where
  pub exists : Text → Disk → Bool
  pub is_directory : Text → Disk → Bool
  pub contents : Text → Disk → Option Text
  pub write : Text → Text → Disk → Option Disk
  pub remove : Text → Disk → Disk × Removal
  pub remove_all : Text → Disk → Disk × Removal
  pub contents-write :
      (p t : Text) (d d' : Disk)
      → write p t d ≡ some d'
      → (exists p d' ≡ true) × (contents p d' ≡ some t)
  pub exists-remove :
      (p : Text) (d : Disk) (n : ℕ) → (remove p d).1 ≡ removed n → exists p (remove p d).0 ≡ false
  pub exists-remove_all :
      (p : Text) (d : Disk) (n : ℕ)
      → (remove_all p d).1 ≡ removed n
      → exists p (remove_all p d).0 ≡ false
  -- Removing makes nothing.
  pub remove_makes_nothing :
      (p q : Text) (d : Disk) → exists q d ≡ false → exists q (remove p d).0 ≡ false
  pub remove_all_makes_nothing :
      (p q : Text) (d : Disk) → exists q d ≡ false → exists q (remove_all p d).0 ≡ false
