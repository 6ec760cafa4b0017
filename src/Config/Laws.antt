-- ===== src/Config/Laws.antt =====
-- src/config.rs: the configurations that `Config::validate` accepts.
use iscsi_s.Prelude.{◌^◌, ◌<◌, ◌≡◌, ◌≢◌, ◌↔◌, refl, false, Option, none, some, List, [], ◌∷◌, map}
use iscsi_s.WriteCache.{WriteCacheMode}
use iscsi_s.Config.{Text, AuthSettings, VolumeConfig, Config, Target, accepted}
use iscsi_s.Config.Validate.{Seen, unset, validate_volumes, validate}
use iscsi_s.Config.Rules.{
  Accepts, Accepts-accepted, Accepts-guard, Accepts-map, Accepts-checked_then, All, Distinct, Fresh,
  Fresh-Distinct,
}
use iscsi_s.Config.Volumes.{IsGoodVolume, FreshPath, with_path, noted, Accepts-validate_volume}

-- The block size is a u32.
abbrev pub FitsU32 : VolumeConfig → Type 0
FitsU32 v = v.block_size < 2 ^ 32

abbrev IsNamed : Option Text → Type 0
IsNamed none = ⊥
IsNamed (some s) = s ≢ []

unset_iff : (o : Option Text) → (unset o ≡ false) ↔ IsNamed o
unset_iff none = (λ h. cc, λ bad. absurd bad)
unset_iff (some []) = (λ h. cc, λ ne. absurd (ne refl))
unset_iff (some (c ∷ cs)) = (λ h e. cc, λ ne. refl)

abbrev names_of : List VolumeConfig → List Text
names_of vs = map (λ v. v.name) vs

abbrev iqns_of : List VolumeConfig → List Text
iqns_of vs = map (λ v. v.iqn) vs

abbrev prefixes_of : List VolumeConfig → List Text
prefixes_of vs = map (λ v. v.prefix) vs

module _ (components : Text → Text) {A C : Type 0} (target : Target A C) where
  -- The directories of the volumes that cache their writes on disk.
  abbrev disk_paths : List VolumeConfig → List Text
  disk_paths [] = []
  disk_paths (v ∷ vs) =
      with_path components target v.write_cache.mode v.write_cache.path (disk_paths vs)

  -- Every volume is well-formed, and no two share a name, an IQN, a prefix or a directory.
  pub record IsWellFormed (cfg : Config) : Type 0 where
    pub some_volume : cfg.volumes ≢ []
    pub bucket : IsNamed cfg.bucket
    pub volumes : All (IsGoodVolume cfg.auth) cfg.volumes
    pub names : Distinct (names_of cfg.volumes)
    pub iqns : Distinct (iqns_of cfg.volumes)
    pub prefixes : Distinct (prefixes_of cfg.volumes)
    pub disk_paths : Distinct (disk_paths cfg.volumes)

  record IsGoodLoop (global : Option AuthSettings) (vs : List VolumeConfig) (seen : Seen)
      : Type 0 where
    volumes : All (IsGoodVolume global) vs
    names : Fresh (names_of vs) seen.names
    iqns : Fresh (iqns_of vs) seen.iqns
    prefixes : Fresh (prefixes_of vs) seen.prefixes
    paths : Fresh (disk_paths vs) seen.disk_paths

  Fresh-with_path :
      (m : WriteCacheMode) (p : Option Text) (rest seen : List Text)
      → (FreshPath components target m p seen × Fresh rest (with_path components target m p seen))
        ↔ Fresh (with_path components target m p rest) seen
  Fresh-with_path WriteCacheMode.disk (some path) rest seen = (λ h. h, λ h. h)
  Fresh-with_path WriteCacheMode.disk none rest seen = (λ (t, h). h, λ h. (tt, h))
  Fresh-with_path WriteCacheMode.none p rest seen = (λ (t, h). h, λ h. (tt, h))
  Fresh-with_path WriteCacheMode.memory p rest seen = (λ (t, h). h, λ h. (tt, h))

  Accepts-validate_volumes :
      (global : Option AuthSettings) (vs : List VolumeConfig) (seen : Seen)
      → All FitsU32 vs
      → Accepts (validate_volumes components target global vs seen) tt (IsGoodLoop global vs seen)
  unfolding validate_volumes
  Accepts-validate_volumes global [] seen fits =
      Accepts-map (λ t. record { volumes = tt; names = tt; iqns = tt; prefixes = tt; paths = tt })
        (λ g. tt) (Accepts-accepted tt)
  Accepts-validate_volumes global (v ∷ vs) seen (fit, fits) =
      Accepts-map
        (λ ((good, new), loop). record {
          volumes = (good, loop.volumes);
          names = (new.name, loop.names);
          iqns = (new.iqn, loop.iqns);
          prefixes = (new.prefix, loop.prefixes);
          paths = path.0 (new.path, loop.paths);
        })
        (λ g.
          let (fresh, rest) = path.1 g.paths in
          (
            (
              g.volumes.0,
              record { name = g.names.0; iqn = g.iqns.0; prefix = g.prefixes.0; path = fresh },
            ),
            record {
              volumes = g.volumes.1;
              names = g.names.1;
              iqns = g.iqns.1;
              prefixes = g.prefixes.1;
              paths = rest;
            },
          ))
        (Accepts-checked_then _ _ _ _ (Accepts-validate_volume components target global v seen fit)
          (Accepts-validate_volumes global vs (noted components target v seen) fits))
    where
      path :
          (FreshPath components target v.write_cache.mode v.write_cache.path seen.disk_paths
            × Fresh
                (disk_paths vs)
                (with_path components target v.write_cache.mode v.write_cache.path seen.disk_paths))
          ↔ Fresh (disk_paths (v ∷ vs)) seen.disk_paths
      path = Fresh-with_path v.write_cache.mode v.write_cache.path (disk_paths vs) seen.disk_paths

  Accepts-validate :
      (auth : Option AuthSettings) (bucket : Option Text) (vs : List VolumeConfig)
      → All FitsU32 vs
      → Accepts
          (validate components target (record { auth = auth; bucket = bucket; volumes = vs }))
          tt
          (IsWellFormed (record { auth = auth; bucket = bucket; volumes = vs }))
  unfolding validate
  Accepts-validate auth bucket [] fits = record {
    yields = λ y h. cc;
    takes = λ w. absurd (w.some_volume refl);
  }
  Accepts-validate auth bucket (v ∷ vs) fits =
      Accepts-map
        (λ (named, loop). record {
          some_volume = λ e. cc;
          bucket = named;
          volumes = loop.volumes;
          names = (Fresh-Distinct (names_of (v ∷ vs))).0 loop.names;
          iqns = (Fresh-Distinct (iqns_of (v ∷ vs))).0 loop.iqns;
          prefixes = (Fresh-Distinct (prefixes_of (v ∷ vs))).0 loop.prefixes;
          disk_paths = (Fresh-Distinct (disk_paths (v ∷ vs))).0 loop.paths;
        })
        (λ w. (
          w.bucket,
          record {
            volumes = w.volumes;
            names = (Fresh-Distinct (names_of (v ∷ vs))).1 w.names;
            iqns = (Fresh-Distinct (iqns_of (v ∷ vs))).1 w.iqns;
            prefixes = (Fresh-Distinct (prefixes_of (v ∷ vs))).1 w.prefixes;
            paths = (Fresh-Distinct (disk_paths (v ∷ vs))).1 w.disk_paths;
          },
        ))
        (Accepts-guard _ _ _ _ (unset_iff bucket) (
          Accepts-validate_volumes auth (v ∷ vs)
            (record { names = []; iqns = []; prefixes = []; disk_paths = [] }) fits))

  -- Where every block size is a u32, `validate` accepts a configuration exactly when it names a
  -- bucket and has a volume, every volume has a name, a block size that is a power of two, a chunk
  -- size and a capacity that are positive multiples of it, complete CHAP settings, budgets of 0 or
  -- of a chunk at least, a write buffer only over a write cache and a directory where it caches on
  -- disk, and no two volumes share a name, an IQN, a prefix or a directory.
  pub validate-IsWellFormed :
      (cfg : Config)
      → All FitsU32 cfg.volumes
      → (validate components target cfg ≡ accepted tt) ↔ IsWellFormed cfg
  validate-IsWellFormed cfg fits =
      let a = Accepts-validate cfg.auth cfg.bucket cfg.volumes fits in
      (λ h. (a.yields tt h).1, λ w. a.takes w)
