-- ===== src/Config/Chap.antt =====
-- src/config.rs: which CHAP settings `resolve_auth` accepts.
use iscsi_s.Prelude.{◌≡◌, ◌↔◌, refl, Bool, true, false, Option, none, some, List, arith}
use iscsi_s.Config.{Text, AuthSettings, Target, Checked, accepted, refused}
use iscsi_s.Config.Auth.{non_empty, or_else, merge_auth_settings, resolve, resolve_auth}

abbrev pub is_accepted : {A : Type 0} → Checked A → Bool
is_accepted (accepted a) = true
is_accepted (refused e) = false

abbrev given : Option Text → Bool
given none = false
given (some s) = true

-- The username and the secret come together, so do those of the other direction, which need the first.
abbrev Complete : Option Text → Option Text → Option Text → Option Text → Type 0
Complete user secret mutual_user mutual_secret =
    (given user ≡ given secret)
    × (given mutual_user ≡ given mutual_secret)
    × (given mutual_user ≡ true → given user ≡ true)

-- A setting of the volume, or else the global one; one of white space alone is not given.
abbrev setting :
    Option AuthSettings → Option AuthSettings → (AuthSettings → Option Text) → Option Text
setting none none field = none
setting (some g) none field = non_empty (field g)
setting none (some v) field = non_empty (field v)
setting (some g) (some v) field = non_empty (or_else (field v) (field g))

abbrev pub IsComplete : Option AuthSettings → Option AuthSettings → Type 0
IsComplete global volume =
    Complete (setting global volume (λ s. s.username)) (setting global volume (λ s. s.secret))
      (setting global volume (λ s. s.mutual_username))
      (setting global volume (λ s. s.mutual_secret))

module _ {A C : Type 0} (target : Target A C) where
  resolve-Complete :
      (acl : Option (List Text)) (a b c d : Option Text)
      → (is_accepted (resolve target acl a b c d) ≡ true) ↔ Complete a b c d
  resolve-Complete acl none none none none = ground arith
  resolve-Complete acl none none none (some d) = ground arith
  resolve-Complete acl none none (some c) none = ground arith
  resolve-Complete acl none none (some c) (some d) = ground arith
  resolve-Complete acl (some a) (some b) none none = ground arith
  resolve-Complete acl (some a) (some b) (some c) (some d) = ground arith
  resolve-Complete acl (some a) (some b) none (some d) = ground arith
  resolve-Complete acl (some a) (some b) (some c) none = ground arith
  resolve-Complete acl none (some b) c d = ground arith
  resolve-Complete acl (some a) none c d = ground arith

  pub resolve_auth-IsComplete :
      (global volume : Option AuthSettings)
      → (is_accepted (resolve_auth target global volume) ≡ true) ↔ IsComplete global volume
  unfolding resolve_auth merge_auth_settings
  resolve_auth-IsComplete none none = (λ h. (refl, refl, λ no. no), λ h. refl)
  resolve_auth-IsComplete (some g) none = resolve-Complete g.allowed_initiators _ _ _ _
  resolve_auth-IsComplete none (some v) = resolve-Complete v.allowed_initiators _ _ _ _
  resolve_auth-IsComplete (some g) (some v) = resolve-Complete _ _ _ _ _
