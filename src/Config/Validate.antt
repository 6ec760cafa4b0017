-- ===== src/Config/Validate.antt =====
-- src/config.rs: `Config::validate`. The sets that the loop fills are lists.
use iscsi_s.Prelude.{
  ℕ, zero, suc, ◌+◌, ◌/◌, ◌%◌, Bool, true, false, ◌&&◌, ◌||◌, not, Option, none, some, List, [],
  ◌∷◌, ltb, nat_beq, if◌then◌else◌,
}
use iscsi_s.Compression.{bytes_eq}
use iscsi_s.WriteCache.{WriteCacheMode, is_none}
use iscsi_s.Config.{
  Text, VolumeConfig, Config, invalid, Checked, accepted, refused, checked_then, Target,
  AuthSettings,
}
use iscsi_s.Config.Auth.{resolve_auth}

-- The sets of the loop.
pub record Seen : Type 0 where
  pub names : List Text
  pub iqns : List Text
  pub prefixes : List Text
  pub disk_paths : List Text

unfoldable pub has : List Text → Text → Bool
has [] x = false
has (y ∷ ys) x = bytes_eq y x || has ys x

-- `u32::is_power_of_two`: one bit is set.
unfoldable pub count_ones : ℕ → ℕ → ℕ
count_ones zero n = 0
count_ones (suc bits) n = n % 2 + count_ones bits (n / 2)

abbrev pub is_power_of_two : ℕ → Bool
is_power_of_two n = nat_beq (count_ones 32 n) 1

abbrev pub is_empty : Text → Bool
is_empty [] = true
is_empty (c ∷ cs) = false

-- `map(is_empty).unwrap_or(true)`.
abbrev pub unset : Option Text → Bool
unset none = true
unset (some s) = is_empty s

-- A budget of 0 is no budget.
abbrev pub short_budget : ℕ → ℕ → Bool
short_budget max_bytes chunk_size = ltb 0 max_bytes && ltb max_bytes chunk_size

module _ (components : Text → Text) {A C : Type 0} (target : Target A C) where
  abbrev pub of_volume : {T : Type 0} → VolumeConfig → Checked T → Checked T
  of_volume v (accepted a) = accepted a
  of_volume v (refused (invalid words texts)) = refused (invalid words (v.name ∷ texts))

  -- The match on the mode of the write cache.
  abbrev pub check_path : WriteCacheMode → Option Text → VolumeConfig → Seen → Checked Seen
  check_path WriteCacheMode.disk none v seen =
      refused (invalid "write_cache.mode=disk requires write_cache.path" (v.name ∷ []))
  check_path WriteCacheMode.disk (some path) v seen =
      if is_empty path
      then refused (invalid "write_cache.mode=disk requires write_cache.path" (v.name ∷ []))
      else if has seen.disk_paths (components path)
      then refused (invalid "write_cache.path is used by another volume" (v.name ∷ path ∷ []))
      else accepted (record seen { disk_paths = components path ∷ seen.disk_paths })
  check_path _ path v seen = accepted seen

  -- The loop body.
  unfoldable pub validate_volume : Option AuthSettings → VolumeConfig → Seen → Checked Seen
  validate_volume auth v seen =
      if is_empty v.name
      then refused (invalid "volume name must not be empty" [])
      else if has seen.names v.name
      then refused (invalid "duplicate volume name" (v.name ∷ []))
      else if has seen.iqns v.iqn
      then refused (invalid "duplicate volume iqn" (v.iqn ∷ []))
      else if has seen.prefixes v.prefix
      then refused (invalid "duplicate volume prefix" (v.prefix ∷ []))
      else if nat_beq v.block_size 0 || not (is_power_of_two v.block_size)
      then refused (invalid "block_size must be a non-zero power of two" (v.name ∷ []))
      else if nat_beq v.chunk_size 0 || not (nat_beq (v.chunk_size % v.block_size) 0)
      then refused (invalid "chunk_size must be a non-zero multiple of block_size" (v.name ∷ []))
      else if nat_beq v.capacity 0 || not (nat_beq (v.capacity % v.block_size) 0)
      then refused (invalid "capacity must be a non-zero multiple of block_size" (v.name ∷ []))
      else checked_then (of_volume v (resolve_auth target auth v.auth)) λ _.
        if not (is_none v.write_cache.mode) && short_budget v.write_cache.max_bytes v.chunk_size
        then refused (
            invalid "write_cache.max_bytes must be 0 (unlimited) or at least chunk_size"
              (v.name ∷ []))
        else if short_budget v.write_buffer.max_bytes v.chunk_size
        then refused (
            invalid "write_buffer.max_bytes must be 0 (disabled) or at least chunk_size"
              (v.name ∷ []))
        else if ltb 0 v.write_buffer.max_bytes && is_none v.write_cache.mode
        then refused
            (invalid "write_buffer requires write_cache.mode of memory or disk" (v.name ∷ []))
        else check_path v.write_cache.mode v.write_cache.path v (record seen {
          names = v.name ∷ seen.names;
          iqns = v.iqn ∷ seen.iqns;
          prefixes = v.prefix ∷ seen.prefixes;
        })

  unfoldable pub validate_volumes :
      Option AuthSettings → List VolumeConfig → Seen → Checked (Unit {0})
  validate_volumes auth [] seen = accepted tt
  validate_volumes auth (v ∷ vs) seen =
      checked_then (validate_volume auth v seen) λ seen. validate_volumes auth vs seen

  unfoldable pub validate : Config → Checked (Unit {0})
  validate cfg = elim cfg.volumes [
    | [] ↦
        refused
          (invalid "at least one [[volumes]] entry is required (define them in the config file)" [])
    | v ∷ vs ↦
        if unset cfg.bucket
        then refused
            (invalid "s3.bucket is required (config file, ISCSI_S3_S3__BUCKET, or --bucket)" [])
        else validate_volumes cfg.auth (v ∷ vs)
            (record { names = []; iqns = []; prefixes = []; disk_paths = [] })
  ]
