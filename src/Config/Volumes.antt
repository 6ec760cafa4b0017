-- ===== src/Config/Volumes.antt =====
-- src/config.rs: the volumes that `Config::validate` accepts.
use iscsi_s.Prelude.{
  ℕ, ◌%◌, ◌^◌, ◌≤◌, ◌<◌, ◌≡◌, ◌≢◌, ◌↔◌, ◌⊎◌, refl, ap, ◌∙◌, Bool, true, false, ◌||◌, ◌&&◌, not,
  Option, none, some, List, [], ◌∷◌, arith, nat_beq, ltb, inl, inr,
}
use native.Mathlib.Nat.{one-le-pow}
use iscsi_s.WriteCache.{WriteCacheMode, is_none}
use iscsi_s.Config.{
  invalid, Text, AuthSettings, VolumeConfig, Target, ResolvedAuth, Checked, accepted, refused,
  checked_then,
}
use iscsi_s.Config.Validate.{
  Seen, has, count_ones, is_power_of_two, is_empty, short_budget, of_volume, check_path,
  validate_volume,
}
use iscsi_s.Config.Rules.{
  Accepts, Accepts-accepted, Accepts-guard, Accepts-map, count_ones-one, count_ones-pow,
}
use iscsi_s.Config.Chap.{is_accepted, IsComplete, resolve_auth-IsComplete}

-- 0, or at least one chunk.
abbrev IsBudget : ℕ → ℕ → Type 0
IsBudget max_bytes chunk_size = (max_bytes ≡ 0) ⊎ (chunk_size ≤ max_bytes)

abbrev IsMultiple : ℕ → ℕ → Type 0
IsMultiple n block_size = (0 < n) × (n % block_size ≡ 0)

-- The path of a write cache on disk.
abbrev IsPlaced : WriteCacheMode → Option Text → Type 0
IsPlaced WriteCacheMode.disk none = ⊥
IsPlaced WriteCacheMode.disk (some path) = path ≢ []
IsPlaced _ path = Unit

pub record IsGoodVolume (global : Option AuthSettings) (v : VolumeConfig) : Type 0 where
  pub named : v.name ≢ []
  pub block_size : (k : ℕ) × (k < 32) × (v.block_size ≡ 2 ^ k)
  pub chunk_size : IsMultiple v.chunk_size v.block_size
  pub capacity : IsMultiple v.capacity v.block_size
  pub auth : IsComplete global v.auth
  pub cache :
      (v.write_cache.mode ≡ WriteCacheMode.none) ⊎ IsBudget v.write_cache.max_bytes v.chunk_size
  pub buffer : IsBudget v.write_buffer.max_bytes v.chunk_size
  pub buffered : (v.write_buffer.max_bytes ≡ 0) ⊎ (v.write_cache.mode ≢ WriteCacheMode.none)
  pub placed : IsPlaced v.write_cache.mode v.write_cache.path

is_empty_iff : (s : Text) → (is_empty s ≡ false) ↔ (s ≢ [])
is_empty_iff [] = (λ h. cc, λ ne. absurd (ne refl))
is_empty_iff (c ∷ cs) = (λ h e. cc, λ ne. refl)

is_none_iff : (m : WriteCacheMode) → (is_none m ≡ true) ↔ (m ≡ WriteCacheMode.none)
is_none_iff WriteCacheMode.none = (λ h. refl, λ h. refl)
is_none_iff WriteCacheMode.memory = (λ h. cc, λ h. cc)
is_none_iff WriteCacheMode.disk = (λ h. cc, λ h. cc)

is_power_of_two_iff :
    (n : ℕ)
    → n < 2 ^ 32
    → (nat_beq n 0 || not (is_power_of_two n) ≡ false) ↔ ((k : ℕ) × (k < 32) × (n ≡ 2 ^ k))
is_power_of_two_iff n lt = (
  λ h. count_ones-one 32 n lt (ground arith),
  λ (k, below, e).
      let one : count_ones 32 n ≡ 1 =
        ap (λ (m : ℕ). count_ones 32 m) e ∙ count_ones-pow k 32 below in
      let pos : 0 < 2 ^ k = one-le-pow k 2 (omega arith) in ground arith,
)

multiple_iff : (n b : ℕ) → (nat_beq n 0 || not (nat_beq (n % b) 0) ≡ false) ↔ IsMultiple n b
multiple_iff n b = ground arith

short_budget_iff : (m c : ℕ) → (short_budget m c ≡ false) ↔ IsBudget m c
short_budget_iff m c = ground arith

cache_iff :
    (mode : WriteCacheMode) (m c : ℕ)
    → (not (is_none mode) && short_budget m c ≡ false)
      ↔ ((mode ≡ WriteCacheMode.none) ⊎ IsBudget m c)
cache_iff WriteCacheMode.none m c = (λ h. inl refl, λ h. refl)
cache_iff WriteCacheMode.memory m c = (λ h. inr ((short_budget_iff m c).0 h), λ h. cache_memory h)
  where
    cache_memory :
        (WriteCacheMode.memory ≡ WriteCacheMode.none) ⊎ IsBudget m c → short_budget m c ≡ false
    cache_memory (inl e) = cc
    cache_memory (inr b) = (short_budget_iff m c).1 b
cache_iff WriteCacheMode.disk m c = (λ h. inr ((short_budget_iff m c).0 h), λ h. cache_disk h)
  where
    cache_disk :
        (WriteCacheMode.disk ≡ WriteCacheMode.none) ⊎ IsBudget m c → short_budget m c ≡ false
    cache_disk (inl e) = cc
    cache_disk (inr b) = (short_budget_iff m c).1 b

buffered_iff :
    (mode : WriteCacheMode) (m : ℕ)
    → (ltb 0 m && is_none mode ≡ false) ↔ ((m ≡ 0) ⊎ (mode ≢ WriteCacheMode.none))
buffered_iff mode m = ground (arith, is_none_iff mode)

module _ (components : Text → Text) {A C : Type 0} (target : Target A C) where
  -- The path of a volume on disk, before those of the others.
  abbrev pub with_path : WriteCacheMode → Option Text → List Text → List Text
  with_path WriteCacheMode.disk (some path) paths = components path ∷ paths
  with_path _ path paths = paths

  abbrev pub FreshPath : WriteCacheMode → Option Text → List Text → Type 0
  FreshPath WriteCacheMode.disk (some path) seen = has seen (components path) ≡ false
  FreshPath _ path seen = Unit

  Accepts-check_path :
      (m : WriteCacheMode) (p : Option Text) (v : VolumeConfig) (seen : Seen)
      → Accepts
          (check_path components target m p v seen)
          (record seen { disk_paths = with_path m p seen.disk_paths })
          (IsPlaced m p × FreshPath m p seen.disk_paths)
  Accepts-check_path WriteCacheMode.disk none v seen = record {
    yields = λ y h. cc;
    takes = λ (bad, h). absurd bad;
  }
  Accepts-check_path WriteCacheMode.disk (some path) v seen =
      Accepts-map (λ (a, (b, c)). (a, b)) (λ (a, b). (a, (b, tt)))
        (Accepts-guard _ _ _ _ (is_empty_iff path)
          (Accepts-guard _ _ _ _ (λ h. h, λ h. h) (Accepts-accepted _)))
  Accepts-check_path WriteCacheMode.none p v seen =
      Accepts-map (λ h. (tt, tt)) (λ h. tt) (Accepts-accepted seen)
  Accepts-check_path WriteCacheMode.memory p v seen =
      Accepts-map (λ h. (tt, tt)) (λ h. tt) (Accepts-accepted seen)

  Accepts-resolved :
      (v : VolumeConfig) (r : Checked (ResolvedAuth A)) (k : Checked Seen) (z : Seen) {P Q : Type 0}
      → (is_accepted r ≡ true) ↔ P
      → Accepts k z Q
      → Accepts (checked_then (of_volume components target v r) λ _. k) z (P × Q)
  Accepts-resolved v (accepted a) k z iff b = Accepts-map (λ q. (iff.0 refl, q)) (λ (p, q). q) b
  Accepts-resolved v (refused (invalid words texts)) k z iff b = record {
    yields = λ y h. cc;
    takes = λ (p, q). let no = iff.1 p in cc;
  }

  -- The sets after a volume.
  abbrev pub noted : VolumeConfig → Seen → Seen
  noted v seen = record {
    names = v.name ∷ seen.names;
    iqns = v.iqn ∷ seen.iqns;
    prefixes = v.prefix ∷ seen.prefixes;
    disk_paths = with_path v.write_cache.mode v.write_cache.path seen.disk_paths;
  }

  -- A volume that the sets have not seen.
  pub record IsNew (v : VolumeConfig) (seen : Seen) : Type 0 where
    pub name : has seen.names v.name ≡ false
    pub iqn : has seen.iqns v.iqn ≡ false
    pub prefix : has seen.prefixes v.prefix ≡ false
    pub path : FreshPath v.write_cache.mode v.write_cache.path seen.disk_paths

  pub Accepts-validate_volume :
      (global : Option AuthSettings) (v : VolumeConfig) (seen : Seen)
      → v.block_size < 2 ^ 32
      → Accepts
          (validate_volume components target global v seen)
          (noted v seen)
          (IsGoodVolume global v × IsNew v seen)
  unfolding validate_volume
  Accepts-validate_volume global v seen lt =
      Accepts-map
        (λ (a, (b, (c, (d, (e, (f, (g, (h, (i, (j, (k, (l, m)))))))))))). (
          record {
            named = a;
            block_size = e;
            chunk_size = f;
            capacity = g;
            auth = h;
            cache = i;
            buffer = j;
            buffered = k;
            placed = l;
          },
          record { name = b; iqn = c; prefix = d; path = m },
        ))
        (λ (g, n). (
          g.named,
          (
            n.name,
            (
              n.iqn,
              (
                n.prefix,
                (
                  g.block_size,
                  (
                    g.chunk_size,
                    (g.capacity, (g.auth, (g.cache, (g.buffer, (g.buffered, (g.placed, n.path)))))),
                  ),
                ),
              ),
            ),
          ),
        ))
        (Accepts-guard _ _ _ _ (is_empty_iff v.name) (
          Accepts-guard _ _ _ _ same (
            Accepts-guard _ _ _ _ same (
              Accepts-guard _ _ _ _ same (
                Accepts-guard _ _ _ _ (is_power_of_two_iff v.block_size lt) (
                  Accepts-guard _ _ _ _ (multiple_iff v.chunk_size v.block_size) (
                    Accepts-guard _ _ _ _ (multiple_iff v.capacity v.block_size) (
                      Accepts-resolved v _ _ _ (resolve_auth-IsComplete target global v.auth) (
                        Accepts-guard _ _ _ _
                          (cache_iff v.write_cache.mode v.write_cache.max_bytes v.chunk_size)
                          (Accepts-guard _ _ _ _
                            (short_budget_iff v.write_buffer.max_bytes v.chunk_size)
                            (Accepts-guard _ _ _ _
                              (buffered_iff v.write_cache.mode v.write_buffer.max_bytes)
                              (Accepts-check_path v.write_cache.mode v.write_cache.path v
                                _))))))))))))
    where
      same : {x y : Bool} → (x ≡ y) ↔ (x ≡ y)
      same = (λ h. h, λ h. h)
