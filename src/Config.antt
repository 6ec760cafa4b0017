-- ===== src/Config.antt =====
-- src/config.rs: what `Config::validate` accepts, and the CHAP settings of a volume. Text is
-- Unicode scalar values. The target library's authentication, and the components by which a
-- `PathBuf` is compared, are parameters; TOML, the environment and the command line are not
-- modelled, nor are the fields that validation does not read. An error keeps the fixed words of
-- its message and the texts put into it.
pub mod Auth
pub mod Validate
pub mod Rules
pub mod Chap
pub mod Volumes
pub mod Laws
use iscsi_s.Prelude.{ℕ, Option, List, String}
use iscsi_s.WriteCache.{WriteCacheMode}

abbrev pub Text : Type 0
Text = List ℕ

pub data ConfigError : Type 0 where
  invalid : String → List Text → ConfigError

-- `Result<A, ConfigError>`.
pub data Checked (A : Type 0) : Type 0 where
  accepted : A → Checked A
  refused : ConfigError → Checked A

-- The `?` operator.
abbrev pub checked_then : {A T : Type 0} → Checked A → (A → Checked T) → Checked T
checked_then (accepted a) k = k a
checked_then (refused e) k = refused e

pub record AuthSettings : Type 0 where
  pub username : Option Text
  pub secret : Option Text
  pub mutual_username : Option Text
  pub mutual_secret : Option Text
  pub allowed_initiators : Option (List Text)

pub data AuthMode : Type 0 where
  none chap mutual_chap : AuthMode

-- The constructors of the target library's `AuthConfig`, and `ChapCredentials::new`.
pub record Target (A : Type 0) (C : Type 0) : Type 0 where
  pub no_auth : A
  pub chap : C → A
  pub mutual_chap : C → C → A
  pub credentials : Text → Text → C

pub record ResolvedAuth (A : Type 0) : Type 0 where
  pub config : A
  pub allowed_initiators : Option (List Text)
  pub mode : AuthMode
  pub username : Option Text

pub record WriteCacheConfig : Type 0 where
  pub mode : WriteCacheMode
  pub path : Option Text
  pub max_bytes : ℕ

pub record WriteBufferConfig : Type 0 where
  pub max_bytes : ℕ

pub record VolumeConfig : Type 0 where
  pub name : Text
  pub iqn : Text
  pub prefix : Text
  pub capacity : ℕ
  pub block_size : ℕ
  pub chunk_size : ℕ
  pub auth : Option AuthSettings
  pub write_cache : WriteCacheConfig
  pub write_buffer : WriteBufferConfig

pub record Config : Type 0 where
  pub auth : Option AuthSettings
  pub bucket : Option Text
  pub volumes : List VolumeConfig
