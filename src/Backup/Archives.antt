-- ===== src/Backup/Archives.antt =====
-- What src/octw/orchestrator/backup.py asks of `tarfile`, `pathlib` and `subprocess`, and what the
-- documentation of `tarfile` says about the files that an archive holds.
use octw.Prelude.{
  ◌≡◌, ◌≢◌, Text, codes, Bool, true, false, Option, none, some, List, [], ◌++◌, starts_with,
}
use octw.Exec.{Result, ok, ⊤}
use octw.Platform.{Platform}

-- Each call returns or raises, and may change the machine even when it raises.
pub record Archives (D : Type 0) : Type 0 where
  -- `tarfile.open(archive, "w:gz")`
  pub create : Text → D → Result ⊤ × D
  -- `tar.add(source, arcname=name)`, for the archive that is open
  pub add : Text → Text → Text → D → Result ⊤ × D
  -- the end of `with`, where the flag says that the block has not raised
  pub close : Text → Bool → D → Result ⊤ × D
  -- `tarfile.open(archive, "r:gz")`
  pub open_read : Text → D → Result ⊤
  -- `tar.extractall(path=directory)`
  pub extract_all : Text → Text → D → Result ⊤ × D
  -- the paths of `directory.rglob(name)`
  pub rglob : Text → Text → D → List Text
  -- `subprocess.run(command, check=True)`
  pub run : List Text → D → Result ⊤ × D

-- The first of two that is there.
abbrev pub or_else {ℓ} : {A : Type ℓ} → Option A → Option A → Option A
or_else none b = b
or_else (some a) b = some a

-- The path of what stands under a directory.
abbrev pub under : Text → Text → Text
under directory name = directory ++ (codes "/" ++ name)

-- `file` is what a regular file holds, at its one full path, and `member` what an archive holds for a
-- name.
pub record ArchiveLaws {D : Type 0} (p : Platform D) (a : Archives D)
    (file : Text → D → Option Text) (member : Text → Text → D → Option Text) : Type 0 where
  pub makedirs_keeps : (t f : Text) (d : D) → file f (p.makedirs t d).1 ≡ file f d
  pub makedirs_members : (t z n : Text) (d : D) → member z n (p.makedirs t d).1 ≡ member z n d
  pub creates : (z n : Text) (d : D) → (a.create z d).0 ≡ ok tt → member z n (a.create z d).1 ≡ none
  pub create_keeps : (z f : Text) (d : D) → f ≢ z → file f (a.create z d).1 ≡ file f d
  -- what is added goes over what the archive held under this name
  pub adds :
      (z source name n : Text) (d : D)
      → (a.add z source name d).0 ≡ ok tt
      → under source n ≢ z
      → member z (under name n) (a.add z source name d).1
        ≡ or_else (file (under source n) d) (member z (under name n) d)
  pub add_members :
      (z source name m : Text) (d : D)
      → (a.add z source name d).0 ≡ ok tt
      → starts_with (under name []) m ≡ false
      → member z m (a.add z source name d).1 ≡ member z m d
  pub add_keeps :
      (z source name f : Text) (d : D) → f ≢ z → file f (a.add z source name d).1 ≡ file f d
  pub closes :
      (z n : Text) (d : D)
      → (a.close z true d).0 ≡ ok tt
      → member z n (a.close z true d).1 ≡ member z n d
  -- files that are there are overwritten, and others stay
  pub extracts :
      (z directory n : Text) (d : D)
      → (a.extract_all z directory d).0 ≡ ok tt
      → file (under directory n) (a.extract_all z directory d).1
        ≡ or_else (member z n d) (file (under directory n) d)
