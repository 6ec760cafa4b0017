-- ===== src/Config/Auth.antt =====
-- src/config.rs: `non_empty`, `merge_auth_settings` and `resolve_auth`.
use iscsi_s.Prelude.{
  ℕ, Bool, ◌||◌, ◌&&◌, Option, none, some, List, [], ◌∷◌, leb, nat_beq, trim_matches,
}
use iscsi_s.Config.{
  Text, AuthSettings, AuthMode, Target, ResolvedAuth, invalid, Checked, accepted, refused,
}

-- `char::is_whitespace`, the code points with the property White_Space.
abbrev pub is_whitespace : ℕ → Bool
is_whitespace c =
    (leb 9 c && leb c 13)
    || nat_beq c 0x20
    || nat_beq c 0x85
    || nat_beq c 0xa0
    || nat_beq c 0x1680
    || (leb 0x2000 c && leb c 0x200a)
    || nat_beq c 0x2028
    || nat_beq c 0x2029
    || nat_beq c 0x202f
    || nat_beq c 0x205f
    || nat_beq c 0x3000

abbrev pub unless_empty : Text → Option Text
unless_empty [] = none
unless_empty (c ∷ cs) = some (c ∷ cs)

unfoldable pub non_empty : Option Text → Option Text
non_empty none = none
non_empty (some s) = unless_empty (trim_matches is_whitespace s)

-- `Option::or_else`.
abbrev pub or_else {ℓ} : {A : Type ℓ} → Option A → Option A → Option A
or_else none other = other
or_else (some a) other = some a

unfoldable pub merge_auth_settings : Option AuthSettings → Option AuthSettings → Option AuthSettings
merge_auth_settings none none = none
merge_auth_settings (some g) none = some g
merge_auth_settings none (some v) = some v
merge_auth_settings (some g) (some v) = some (record {
  username = or_else v.username g.username;
  secret = or_else v.secret g.secret;
  mutual_username = or_else v.mutual_username g.mutual_username;
  mutual_secret = or_else v.mutual_secret g.mutual_secret;
  allowed_initiators = or_else v.allowed_initiators g.allowed_initiators;
})

module _ {A C : Type 0} (target : Target A C) where
  -- A volume that anyone may log in to.
  abbrev pub open_auth : Option (List Text) → ResolvedAuth A
  open_auth acl = record {
    config = target.no_auth;
    allowed_initiators = acl;
    mode = AuthMode.none;
    username = none;
  }

  abbrev pub chap_auth : Option (List Text) → Text → Text → ResolvedAuth A
  chap_auth acl username secret = record {
    config = target.chap (target.credentials username secret);
    allowed_initiators = acl;
    mode = AuthMode.chap;
    username = some username;
  }

  abbrev pub mutual_auth : Option (List Text) → Text → Text → Text → Text → ResolvedAuth A
  mutual_auth acl username secret mu ms = record {
    config = target.mutual_chap (target.credentials username secret) (target.credentials mu ms);
    allowed_initiators = acl;
    mode = AuthMode.mutual_chap;
    username = some username;
  }

  -- The match on the settings that are given.
  abbrev pub resolve :
      Option (List Text)
      → Option Text
      → Option Text
      → Option Text
      → Option Text
      → Checked (ResolvedAuth A)
  resolve acl none none none none = accepted (open_auth acl)
  resolve acl none none _ _ =
      refused (invalid "auth: mutual_username/mutual_secret require username and secret" [])
  resolve acl (some username) (some secret) none none = accepted (chap_auth acl username secret)
  resolve acl (some username) (some secret) (some mu) (some ms) =
      accepted (mutual_auth acl username secret mu ms)
  resolve acl (some username) (some secret) _ _ =
      refused
        (invalid "auth: mutual_username and mutual_secret must both be set for mutual CHAP" [])
  resolve acl _ _ _ _ = refused (invalid "auth: username and secret must both be set for CHAP" [])

  abbrev pub resolve_settings : Option AuthSettings → Checked (ResolvedAuth A)
  resolve_settings none = accepted (open_auth none)
  resolve_settings (some s) =
      resolve s.allowed_initiators (non_empty s.username) (non_empty s.secret)
        (non_empty s.mutual_username) (non_empty s.mutual_secret)

  unfoldable pub resolve_auth : Option AuthSettings → Option AuthSettings → Checked (ResolvedAuth A)
  unfolding merge_auth_settings
  resolve_auth global volume = resolve_settings (merge_auth_settings global volume)
