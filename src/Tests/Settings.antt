-- ===== src/Tests/Settings.antt =====
-- Runs of src/config.rs and src/identity.rs.
use iscsi_s.Prelude.{
  ℕ, ◌+◌, ◌*◌, ◌%◌, ◌^◌, ◌≡◌, ◌↔◌, refl, Option, none, some, List, [], ◌∷◌, length, arith, from_be,
  parse_digits,
}
use iscsi_s.WriteCache.{WriteCacheMode}
use iscsi_s.Config.{Text, AuthSettings, VolumeConfig, Config, Target, accepted}
use iscsi_s.Config.Auth.{resolve_auth}
use iscsi_s.Config.Validate.{validate}
use iscsi_s.Config.Laws.{IsWellFormed, validate-IsWellFormed}
use iscsi_s.Identity.{fnv1a64, serial_from_iqn, naa_from_iqn}
use iscsi_s.Identity.Laws.{parse-serial_from_iqn, from_be-naa_from_iqn}

-- A target library that keeps what it is given.
abbrev kept_target : Target (List Text) (List Text)
kept_target = record {
  no_auth = [];
  chap = λ c. c;
  mutual_chap = λ c d. (b'm' ∷ []) ∷ c;
  credentials = λ user secret. user ∷ secret ∷ [];
}

abbrev components : Text → Text
components path = path

abbrev chap : AuthSettings
chap = record {
  username = some (b'u' ∷ []);
  secret = some (b's' ∷ []);
  mutual_username = none;
  mutual_secret = none;
  allowed_initiators = none;
}

abbrev nameless : AuthSettings
nameless = record chap { username = some (b' ' ∷ []); secret = none }

abbrev volume_a : VolumeConfig
volume_a = record {
  name = b'a' ∷ [];
  iqn = b'i' ∷ [];
  prefix = b'p' ∷ [];
  capacity = 4096;
  block_size = 512;
  chunk_size = 1024;
  auth = none;
  write_cache = record { mode = WriteCacheMode.disk; path = some (b'd' ∷ []); max_bytes = 0 };
  write_buffer = record { max_bytes = 2048 };
}

abbrev two_volumes : Config
two_volumes = record {
  auth = some chap;
  bucket = some (b'b' ∷ []);
  volumes =
      volume_a
      ∷ record volume_a {
        name = b'b' ∷ [];
        iqn = b'j' ∷ [];
        prefix = b'q' ∷ [];
        write_cache = record { mode = WriteCacheMode.none; path = none; max_bytes = 0 };
        write_buffer = record { max_bytes = 0 };
      }
      ∷ [];
}

validate-IsWellFormed_example :
    (validate components kept_target two_volumes ≡ accepted tt)
    ↔ IsWellFormed components kept_target two_volumes
validate-IsWellFormed_example =
    validate-IsWellFormed components kept_target two_volumes (omega arith, (omega arith, tt))

two_volumes_accepted : validate components kept_target two_volumes ≡ accepted tt
unfolding validate iscsi_s.Config.Validate.validate_volumes iscsi_s.Config.Validate.validate_volume
    iscsi_s.Config.Validate.has iscsi_s.Config.Validate.count_ones resolve_auth
    iscsi_s.Config.Auth.merge_auth_settings iscsi_s.Config.Auth.non_empty iscsi_s.Prelude.trim_start
    iscsi_s.Prelude.trim_end
two_volumes_accepted = refl

abbrev iqn : List ℕ
iqn = b'i' ∷ b'q' ∷ b'n' ∷ []

parse-serial_from_iqn_example :
    (length (serial_from_iqn iqn) ≡ 16)
    × (parse_digits 0 (serial_from_iqn iqn) ≡ some (fnv1a64 iqn))
parse-serial_from_iqn_example = parse-serial_from_iqn iqn

from_be-naa_from_iqn_example : from_be 0 (naa_from_iqn iqn) ≡ 6 * 2 ^ 60 + fnv1a64 iqn % 2 ^ 60
from_be-naa_from_iqn_example = from_be-naa_from_iqn iqn
