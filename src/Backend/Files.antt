-- ===== src/Backend/Files.antt =====
-- The calls of package os on files, and what a file system promises that nobody else writes to
-- meanwhile and that has no symbolic links.
use entropy_gen.Common.{ℕ, ◌≡◌, ◌≢◌, Bool, Option, none, some, List, []}
use entropy_gen.Common.Text.{Text}
use entropy_gen.Common.Paths.{FilePath}
use entropy_gen.Common.Paths.Containment.{Within}
use entropy_gen.Common.Fallible.{Error, Result, ok, Action}
use entropy_gen.Common.Actions.{Keeps}

pub record DirEntry : Type 0 where
  pub name : Text
  pub is_dir : Bool

-- What filepath.WalkDir calls its function with: an error, a directory, or a file with its path
-- below the directory, its modification time and what os.ReadFile gives for it.
pub data WalkEntry : Type 0 where
  walk_error : Error → WalkEntry
  directory : WalkEntry
  file : Text → Result ℕ → Result Text → WalkEntry

-- os.Stat gives the modification time.
pub record FileSystem (W : Type 0) : Type 0 where
  pub read_file : FilePath → Action W Text
  pub write_file : FilePath → Text → Action W (Unit {0})
  pub stat : FilePath → Action W ℕ
  pub mkdir_all : FilePath → Action W (Unit {0})
  pub remove : FilePath → Action W (Unit {0})
  pub remove_all : FilePath → Action W (Unit {0})
  pub rename : FilePath → FilePath → Action W (Unit {0})
  pub read_dir : FilePath → Action W (List DirEntry)
  pub walk_dir : FilePath → W → List WalkEntry
  -- os.IsNotExist
  pub is_not_exist : Error → Bool

-- A call that fails may have written, or removed, a part of what it was to write or remove.
pub record FileLaws {W : Type 0} (fs : FileSystem W) : Type 0 where
  pub file_at : W → FilePath → Option Text
  pub read_ok :
      (p : FilePath) (w : W) (c : Text) → (fs.read_file p w).0 ≡ ok c → file_at w p ≡ some c
  pub read_keeps : (p : FilePath) → Keeps file_at (fs.read_file p)
  pub stat_keeps : (p : FilePath) → Keeps file_at (fs.stat p)
  pub mkdir_keeps : (p : FilePath) → Keeps file_at (fs.mkdir_all p)
  pub read_dir_keeps : (p : FilePath) → Keeps file_at (fs.read_dir p)
  pub write_ok :
      (p : FilePath) (c : Text) (w : W)
      → (fs.write_file p c w).0 ≡ ok tt
      → file_at (fs.write_file p c w).1 p ≡ some c
  pub write_frame :
      (p q : FilePath) (c : Text) → p ≢ q → Keeps (λ w. file_at w q) (fs.write_file p c)
  pub remove_ok :
      (p : FilePath) (w : W) → (fs.remove p w).0 ≡ ok tt → file_at (fs.remove p w).1 p ≡ none
  pub remove_frame : (p q : FilePath) → p ≢ q → Keeps (λ w. file_at w q) (fs.remove p)
  -- removing what was just read as an empty directory removes no file
  pub remove_empty :
      (p : FilePath) (w : W)
      → (fs.read_dir p w).0 ≡ ok []
      → file_at (fs.remove p (fs.read_dir p w).1).1 ≡ file_at w
  pub remove_all_ok :
      (p q : FilePath) (w : W)
      → (fs.remove_all p w).0 ≡ ok tt
      → Within p q
      → file_at (fs.remove_all p w).1 q ≡ none
  pub remove_all_frame :
      (p q : FilePath) → ¬ Within p q → Keeps (λ w. file_at w q) (fs.remove_all p)
  pub rename_ok :
      (p q : FilePath) (w : W) (c : Text)
      → p ≢ q
      → file_at w p ≡ some c
      → (fs.rename p q w).0 ≡ ok tt
      → (file_at (fs.rename p q w).1 q ≡ some c) × (file_at (fs.rename p q w).1 p ≡ none)
  pub rename_frame :
      (p q r : FilePath) → ¬ Within p r → ¬ Within q r → Keeps (λ w. file_at w r) (fs.rename p q)
