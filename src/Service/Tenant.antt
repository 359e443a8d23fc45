-- ===== src/Service/Tenant.antt =====
-- `TenantSchema.Validate` of internal/service/tenant_schema.go.
pub mod Accepts
use memmy.Prelude.{
  ℕ, zero, suc, ◌+◌, String, str_eq, Bool, true, false, not, ◌&&◌, ◌||◌, Option, none, some, List,
  [], ◌∷◌, if◌then◌else◌, ltb, ◌==◌,
}
use memmy.Prelude.Dict.{Dict, get}

-- `MatchString` of a compiled pattern is the function that it computes.
pub record TenantKey : Type 0 where
  pub description : String
  pub pattern : Option (String → Bool)
  pub pattern_raw : String
  pub enum : List String
  pub required : Bool

pub record TenantSchema : Type 0 where
  pub description : String
  pub keys : Dict TenantKey
  pub one_of : List (List String)

-- `ErrTenantInvalid`, a constructor for each `Code`, with `Field` and `Got`; `Message` is built from
-- these and from the schema.
pub data ErrTenantInvalid : Type 0 where
  unknown_key : String → ErrTenantInvalid
  enum_mismatch pattern_mismatch : String → String → ErrTenantInvalid
  missing_required : String → ErrTenantInvalid
  one_of_no_match one_of_multiple_match : ErrTenantInvalid

-- An early `return`.
abbrev pub or_else : Option ErrTenantInvalid → Option ErrTenantInvalid → Option ErrTenantInvalid
or_else (some e) rest = some e
or_else none rest = rest

abbrev pub is_present : {V : Type 0} → Option V → Bool
is_present none = false
is_present (some v) = true

-- `slices.Contains`.
unfoldable pub contains : List String → String → Bool
contains [] v = false
contains (x ∷ xs) v = str_eq x v || contains xs v

abbrev pub is_nil : {A : Type 0} → List A → Bool
is_nil [] = true
is_nil (x ∷ xs) = false

abbrev pub matches : Option (String → Bool) → String → Bool
matches none v = true
matches (some p) v = p v

-- 1. Reject unknown keys.
unfoldable pub check_known : TenantSchema → Dict String → Option ErrTenantInvalid
check_known s [] = none
check_known s ((name, v) ∷ tuple) =
    or_else (if is_present (get name s.keys) then none else some (unknown_key name))
      (check_known s tuple)

unfoldable pub check_value : String → TenantKey → Option String → Option ErrTenantInvalid
check_value name key none = none
check_value name key (some v) =
    if not (is_nil key.enum) && not (contains key.enum v)
    then some (enum_mismatch name v)
    else if not (matches key.pattern v)
    then some (pattern_mismatch name v)
    else none

-- 2. Per-key constraints for the keys that the tuple has.
unfoldable pub check_values : Dict TenantKey → Dict String → Option ErrTenantInvalid
unfolding check_value
check_values [] tuple = none
check_values ((name, key) ∷ keys) tuple =
    or_else (check_value name key (get name tuple)) (check_values keys tuple)

-- 3. Required keys must be there.
unfoldable pub check_required : Dict TenantKey → Dict String → Option ErrTenantInvalid
check_required [] tuple = none
check_required ((name, key) ∷ keys) tuple =
    or_else
      (if key.required && not (is_present (get name tuple))
        then some (missing_required name)
        else none)
      (check_required keys tuple)

unfoldable pub has_all : List String → Dict String → Bool
has_all [] tuple = true
has_all (k ∷ ks) tuple = is_present (get k tuple) && has_all ks tuple

unfoldable pub count_matched : List (List String) → Dict String → ℕ
unfolding has_all
count_matched [] tuple = 0
count_matched (set ∷ sets) tuple = (if has_all set tuple then 1 else 0) + count_matched sets tuple

-- 4. Exactly one of the key sets.
unfoldable pub check_one_of : TenantSchema → Dict String → Option ErrTenantInvalid
unfolding count_matched
check_one_of s tuple =
    let matched = count_matched s.one_of tuple in
    if is_nil s.one_of
    then none
    else if matched == 0
    then some one_of_no_match
    else if ltb 1 matched
    then some one_of_multiple_match
    else none

-- The receiver may be nil; so may the error.
unfoldable pub validate : Option TenantSchema → Dict String → Option ErrTenantInvalid
unfolding check_known check_values check_required check_one_of
validate none tuple = none
validate (some s) tuple = or_else (check_known s tuple) (
    or_else (check_values s.keys tuple)
      (or_else (check_required s.keys tuple) (check_one_of s tuple)))
