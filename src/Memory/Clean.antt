-- ===== src/Memory/Clean.antt =====
-- The texts and keys that `_scan_for_secrets` of nexus/memory/store.py looks at.
use pharae.Base.{
  String, false, Option, none, some, List, [], ◌∷◌, ◌++◌, All, All-append, ◌≡◌, refl, Bool-cases,
  inl, inr, arith,
}
use pharae.Base.Text.{◌⧺◌}
use pharae.Schemas.{
  Value, Values, Fields, null, flag, int, float, str, list, dict, none_left, item, no_field, field,
}
use pharae.Memory.Secrets.{
  Scanner, Finding, scan_value, scan_values, scan_fields, is_credential, or_else,
}

-- The texts at any depth, and the keys at any depth with what they hold.
mutual
  pub texts_in : Value → List String
  texts_in (str s) = s ∷ []
  texts_in (list vs) = texts_in_values vs
  texts_in (dict fs) = texts_in_fields fs
  texts_in null = []
  texts_in (flag b) = []
  texts_in (int n) = []
  texts_in (float x) = []

  pub texts_in_values : Values → List String
  texts_in_values none_left = []
  texts_in_values (item v vs) = texts_in v ++ texts_in_values vs

  pub texts_in_fields : Fields → List String
  texts_in_fields no_field = []
  texts_in_fields (field k v fs) = texts_in v ++ texts_in_fields fs

mutual
  pub entries_in : Value → List (String × Value)
  entries_in (list vs) = entries_in_values vs
  entries_in (dict fs) = entries_in_fields fs
  entries_in (str s) = []
  entries_in null = []
  entries_in (flag b) = []
  entries_in (int n) = []
  entries_in (float x) = []

  pub entries_in_values : Values → List (String × Value)
  entries_in_values none_left = []
  entries_in_values (item v vs) = entries_in v ++ entries_in_values vs

  pub entries_in_fields : Fields → List (String × Value)
  entries_in_fields no_field = []
  entries_in_fields (field k v fs) = (k, v) ∷ entries_in v ++ entries_in_fields fs

abbrev pub AreOpen : Scanner → List String → List (String × Value) → Type 0
AreOpen scanner texts entries =
    All (λ s. scanner.is_secret s ≡ false) texts
    × All (λ e. is_credential scanner e.0 e.1 ≡ false) entries

-- No text at any depth matches a secret pattern, and no key at any depth holds a credential.
abbrev pub IsClean : Scanner → Fields → Type 0
IsClean scanner fs = AreOpen scanner (texts_in_fields fs) (entries_in_fields fs)

or_else-none : (a b : Option Finding) → or_else a b ≡ none → (a ≡ none) × (b ≡ none)
or_else-none none b h = (refl, h)
or_else-none (some f) b h = cc

AreOpen-append :
    (scanner : Scanner) (s t : List String) (d e : List (String × Value))
    → AreOpen scanner s d
    → AreOpen scanner t e
    → AreOpen scanner (s ++ t) (d ++ e)
AreOpen-append scanner s t d e h k = (
  All-append (λ x. scanner.is_secret x ≡ false) s t h.0 k.0,
  All-append (λ x. is_credential scanner x.0 x.1 ≡ false) d e h.1 k.1,
)

mutual
  unfolding scan_value texts_in entries_in

  scan_value-AreOpen :
      (scanner : Scanner) (path : String) (v : Value)
      → scan_value scanner path v ≡ none
      → AreOpen scanner (texts_in v) (entries_in v)
  scan_value-AreOpen scanner path null h = (tt, tt)
  scan_value-AreOpen scanner path (flag b) h = (tt, tt)
  scan_value-AreOpen scanner path (int n) h = (tt, tt)
  scan_value-AreOpen scanner path (float x) h = (tt, tt)
  scan_value-AreOpen scanner path (str s) h = ((ground arith, tt), tt)
  scan_value-AreOpen scanner path (list vs) h = scan_values-AreOpen scanner path vs h
  scan_value-AreOpen scanner path (dict fs) h = scan_fields-IsClean scanner path fs h

  scan_values-AreOpen :
      (scanner : Scanner) (path : String) (vs : Values)
      → scan_values scanner path vs ≡ none
      → AreOpen scanner (texts_in_values vs) (entries_in_values vs)
  scan_values-AreOpen scanner path none_left h = (tt, tt)
  scan_values-AreOpen scanner path (item v vs) h =
      let (first, rest) =
        or_else-none (scan_value scanner path v) (scan_values scanner path vs) h in
      AreOpen-append scanner (texts_in v) (texts_in_values vs) (entries_in v) (entries_in_values vs)
        (scan_value-AreOpen scanner path v first) (scan_values-AreOpen scanner path vs rest)

  pub scan_fields-IsClean :
      (scanner : Scanner) (path : String) (fs : Fields)
      → scan_fields scanner path fs ≡ none
      → IsClean scanner fs
  scan_fields-IsClean scanner path no_field h = (tt, tt)
  scan_fields-IsClean scanner path (field k v fs) h =
      elim (Bool-cases (is_credential scanner k v)) [
        | inl found ↦ absurd (ground arith)
        | inr fine ↦
            let (first, rest) =
              or_else-none (scan_value scanner (path ⧺ "." ⧺ k) v) (scan_fields scanner path fs)
                (rw fine at h) in
            let (texts, entries) =
              AreOpen-append scanner (texts_in v) (texts_in_fields fs) (entries_in v)
                (entries_in_fields fs) (scan_value-AreOpen scanner (path ⧺ "." ⧺ k) v first)
                (scan_fields-IsClean scanner path fs rest) in
            (texts, (fine, entries))
      ]
