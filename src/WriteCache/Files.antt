-- ===== src/WriteCache/Files.antt =====
-- src/write_cache.rs: the file of a dirty chunk in mode `disk`. `std::fs` is a parameter; paths are
-- bytes. A file is written under a temporary name, synced, and renamed.
use iscsi_s.Prelude.{ℕ, Bool, Option, none, some, List, [], ◌∷◌, ◌++◌, hex}
use iscsi_s.Result.{ok, Exec, and_then}

pub record FileSystem (D : Type 0) : Type 0 where
  pub create_dir_all : List ℕ → Exec D (Unit {0})
  -- `File::create`, which empties an existing file.
  pub create : List ℕ → Exec D (Unit {0})
  pub write_all : List ℕ → List ℕ → Exec D (Unit {0})
  pub sync_all : List ℕ → Exec D (Unit {0})
  pub rename : List ℕ → List ℕ → Exec D (Unit {0})
  -- `false` is `ErrorKind::NotFound`.
  pub remove_file : List ℕ → Exec D Bool

-- `dir.join(format!("{idx:016x}"))`.
unfoldable pub chunk_path : List ℕ → ℕ → List ℕ
chunk_path dir idx = dir ++ (b'/' ∷ hex 16 idx)

-- `dest.with_extension("tmp")`: the name has no extension.
abbrev pub with_tmp : List ℕ → List ℕ
with_tmp path = path ++ (b'.' ∷ b't' ∷ b'm' ∷ b'p' ∷ [])

module _ {D : Type 0} (fs : FileSystem D) where
  unfoldable pub write_chunk_file : List ℕ → ℕ → List ℕ → Exec D (Unit {0})
  unfolding chunk_path
  write_chunk_file dir idx bytes d =
      let dest = chunk_path dir idx in
      let tmp = with_tmp dest in
      and_then (fs.create_dir_all dir d) λ _ d. and_then (fs.create tmp d) λ _ d.
        and_then (fs.write_all tmp bytes d)
          λ _ d. and_then (fs.sync_all tmp d) λ _ d. fs.rename tmp dest d

  -- `Core::persist` and `Core::remove_file`, on the directory of the core.
  unfoldable pub persist : Option (List ℕ) → ℕ → List ℕ → Exec D (Unit {0})
  unfolding write_chunk_file
  persist none idx bytes d = (ok tt, d)
  persist (some dir) idx bytes d = write_chunk_file dir idx bytes d

  unfoldable pub remove_file : Option (List ℕ) → ℕ → Exec D (Unit {0})
  unfolding chunk_path
  remove_file none idx d = (ok tt, d)
  remove_file (some dir) idx d = and_then (fs.remove_file (chunk_path dir idx) d) λ _ d. (ok tt, d)
