-- ===== src/Memory/Secrets.antt =====
-- `_scan_for_secrets` of nexus/memory/store.py. `lower` stands for `str.lower`, and `is_secret` for
-- the search of the five patterns in a text.
use pharae.Base.{
  String, Bool, true, false, ◌&&◌, not, Option, none, some, List, [], ◌∷◌, elem, if◌then◌else◌,
}
use pharae.Base.Text.{◌⧺◌}
use pharae.Base.Int.{pos, eqb_ℤ}
use pharae.Schemas.{
  Value, Values, Fields, null, flag, int, float, str, list, dict, none_left, item, no_field, field,
  float_zero, at_most,
}

pub record Scanner : Type 0 where
  pub lower : String → String
  pub is_secret : String → Bool

pub data Finding : Type 0 where
  credential_key : String → Finding
  secret_value : (path : String) → Finding

abbrev pub secret_key_names : List String
secret_key_names =
    "password" ∷ "passwd" ∷ "secret" ∷ "api_key" ∷ "apikey" ∷ "token" ∷ "access_token"
    ∷ "refresh_token" ∷ "private_key" ∷ "credentials" ∷ "auth" ∷ []

-- `bool(value)`
unfoldable pub is_truthy : Value → Bool
is_truthy null = false
is_truthy (flag b) = b
is_truthy (int n) = not (eqb_ℤ n (pos 0))
is_truthy (float x) = not (at_most x float_zero && at_most float_zero x)
is_truthy (str String.[]) = false
is_truthy (str (String.◌∷◌ c s)) = true
is_truthy (list none_left) = false
is_truthy (list (item v vs)) = true
is_truthy (dict no_field) = false
is_truthy (dict (field k v fs)) = true

abbrev pub or_else : Option Finding → Option Finding → Option Finding
or_else none later = later
or_else (some found) later = some found

-- Whether the key names a credential and holds something.
unfoldable pub is_credential : Scanner → String → Value → Bool
unfolding is_truthy
is_credential scanner key value = elem (scanner.lower key) secret_key_names && is_truthy value

unfoldable mutual
  unfolding is_credential

  pub scan_value : Scanner → String → Value → Option Finding
  scan_value scanner path null = none
  scan_value scanner path (flag b) = none
  scan_value scanner path (int n) = none
  scan_value scanner path (float x) = none
  scan_value scanner path (str s) = if scanner.is_secret s then some (secret_value path) else none
  scan_value scanner path (list vs) = scan_values scanner path vs
  scan_value scanner path (dict fs) = scan_fields scanner path fs

  pub scan_values : Scanner → String → Values → Option Finding
  scan_values scanner path none_left = none
  scan_values scanner path (item v vs) =
      or_else (scan_value scanner path v) (scan_values scanner path vs)

  pub scan_fields : Scanner → String → Fields → Option Finding
  scan_fields scanner path no_field = none
  scan_fields scanner path (field key value fs) =
      if is_credential scanner key value
      then some (credential_key key)
      else or_else (scan_value scanner (path ⧺ "." ⧺ key) value) (scan_fields scanner path fs)
