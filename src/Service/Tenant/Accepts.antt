-- ===== src/Service/Tenant/Accepts.antt =====
-- Which tuples `Validate` accepts, said with no order of checks and no order of map entries.
use memmy.Prelude.{
  ◌≡◌, refl, sym, ◌∙◌, ◌↔◌, ◌⊎◌, inl, inr, String, true, not, ◌&&◌, ◌||◌, Option, none, some, List,
  [], ◌∷◌, if◌then◌else◌, All, arith, Bool-cases, Option-cases,
}
use memmy.Prelude.Dict.{Dict, get, Distinct, All-get, get-All}
use memmy.Service.Tenant.{
  TenantKey, TenantSchema, ErrTenantInvalid, unknown_key, missing_required, or_else, is_present,
  contains, is_nil, matches, check_known, check_value, check_values, check_required, has_all,
  count_matched, check_one_of, validate,
}

-- The tuple has every key of the set.
abbrev pub Has : Dict String → List String → Type 0
Has tuple [] = Unit
Has tuple (k ∷ ks) = ((v : String) × (get k tuple ≡ some v)) × Has tuple ks

-- Of the sets the tuple has one, and no other.
abbrev pub NoneOf : Dict String → List (List String) → Type 0
NoneOf tuple [] = Unit
NoneOf tuple (set ∷ sets) = (¬ Has tuple set) × NoneOf tuple sets

abbrev pub ExactlyOne : Dict String → List (List String) → Type 0
ExactlyOne tuple [] = ⊥
ExactlyOne tuple (set ∷ sets) =
    (Has tuple set × NoneOf tuple sets) ⊎ ((¬ Has tuple set) × ExactlyOne tuple sets)

-- The value is in the enumeration, if there is one, and matches the pattern, if there is one.
abbrev pub Fits : TenantKey → String → Type 0
Fits key v = ((is_nil key.enum || contains key.enum v) ≡ true) × (matches key.pattern v ≡ true)

pub record Accepts (s : TenantSchema) (tuple : Dict String) : Type 0 where
  pub known : (k v : String) → get k tuple ≡ some v → (key : TenantKey) × (get k s.keys ≡ some key)
  pub fits :
      (k : String) (key : TenantKey) (v : String)
      → get k s.keys ≡ some key
      → get k tuple ≡ some v
      → Fits key v
  pub required :
      (k : String) (key : TenantKey)
      → get k s.keys ≡ some key
      → key.required ≡ true
      → (v : String) × (get k tuple ≡ some v)
  pub one_of : (s.one_of ≡ []) ⊎ ExactlyOne tuple s.one_of

or_else-none : (a b : Option ErrTenantInvalid) → (or_else a b ≡ none) ↔ ((a ≡ none) × (b ≡ none))
or_else-none none b = (λ h. (refl, h), λ h. h.1)
or_else-none (some e) b = (λ h. absurd (cc), λ h. h.0)

present : {V : Type 0} (o : Option V) → (is_present o ≡ true) ↔ ((v : V) × (o ≡ some v))
present none = (λ h. absurd (cc), λ h. absurd (cc (h.1)))
present (some v) = (λ h. (v, refl), λ h. refl)

-- A loop with an early return accepts when every round does.
loop_accepts :
    {V : Type 0} (check : String × V → Option ErrTenantInvalid)
    (loop : Dict V → Option ErrTenantInvalid)
    → loop [] ≡ none
    → ((e : String × V) (m : Dict V) → loop (e ∷ m) ≡ or_else (check e) (loop m))
    → (m : Dict V) → (loop m ≡ none) ↔ All (λ e. check e ≡ none) m
loop_accepts check loop nil step [] = (λ h. tt, λ h. nil)
loop_accepts check loop nil step (e ∷ m) =
    let (ahead, back) = loop_accepts check loop nil step m in
    let (split, join) = or_else-none (check e) (loop m) in
    (
      λ h. let (first, rest) = split (sym (step e m) ∙ h) in (first, ahead rest),
      λ h. step e m ∙ join (h.0, back h.1),
    )

module _ (s : TenantSchema) (tuple : Dict String) where
  abbrev known_check : String × String → Option ErrTenantInvalid
  known_check e = if is_present (get e.0 s.keys) then none else some (unknown_key e.0)

  abbrev value_check : String × TenantKey → Option ErrTenantInvalid
  value_check e = check_value e.0 e.1 (get e.0 tuple)

  abbrev required_check : String × TenantKey → Option ErrTenantInvalid
  required_check e =
      if e.1.required && not (is_present (get e.0 tuple)) then some (missing_required e.0) else none

  known_loop : (check_known s tuple ≡ none) ↔ All (λ e. known_check e ≡ none) tuple
  unfolding check_known
  known_loop = loop_accepts known_check (check_known s) refl (λ e m. refl) tuple

  value_loop : (check_values s.keys tuple ≡ none) ↔ All (λ e. value_check e ≡ none) s.keys
  unfolding check_values
  value_loop = loop_accepts value_check (λ m. check_values m tuple) refl (λ e m. refl) s.keys

  required_loop : (check_required s.keys tuple ≡ none) ↔ All (λ e. required_check e ≡ none) s.keys
  unfolding check_required
  required_loop =
      loop_accepts required_check (λ m. check_required m tuple) refl (λ e m. refl) s.keys

  Fits-check :
      (k : String) (key : TenantKey) (v : String)
      → get k tuple ≡ some v
      → (value_check (k, key) ≡ none) ↔ Fits key v
  unfolding check_value
  Fits-check k key v e = rw e (λ h. (ground arith, ground arith), λ h. ground arith)

  Has-has_all : (set : List String) → (has_all set tuple ≡ true) ↔ Has tuple set
  unfolding has_all
  Has-has_all [] = (λ h. tt, λ h. refl)
  Has-has_all (k ∷ ks) =
      let (ahead, back) = Has-has_all ks in
      let (found, there) = present (get k tuple) in
      (λ h. (found (ground arith), ahead (ground arith)), λ h. ground (arith, there h.0, back h.1))

  count_none : (sets : List (List String)) → (count_matched sets tuple ≡ 0) ↔ NoneOf tuple sets
  unfolding count_matched
  count_none [] = (λ h. tt, λ h. refl)
  count_none (set ∷ sets) =
      let (ahead, back) = count_none sets in
      let (has, all) = Has-has_all set in
      (
        λ h. ((λ p. ground (arith, all p)), ahead (ground arith)),
        λ h. elim (Bool-cases (has_all set tuple)) [
          | inl e ↦ absurd (h.0 (has e))
          | inr e ↦ ground (arith, back h.1)
        ],
      )

  count_one : (sets : List (List String)) → (count_matched sets tuple ≡ 1) ↔ ExactlyOne tuple sets
  unfolding count_matched
  count_one [] = (λ h. absurd (omega arith), λ h. absurd h)
  count_one (set ∷ sets) =
      let (ahead, back) = count_one sets in
      let (has, all) = Has-has_all set in
      let (none_of, zero_of) = count_none sets in
      (
        λ h. elim (Bool-cases (has_all set tuple)) [
          | inl e ↦ inl (has e, none_of (ground arith))
          | inr e ↦ inr ((λ p. ground (arith, all p)), ahead (ground arith))
        ],
        λ h. elim h [
          | inl (p, q) ↦ ground (arith, all p, zero_of q)
          | inr (p, q) ↦ elim (Bool-cases (has_all set tuple)) [
            | inl e ↦ absurd (p (has e))
            | inr e ↦ ground (arith, back q)
          ]
        ],
      )

  one_of_check : (check_one_of s tuple ≡ none) ↔ ((s.one_of ≡ []) ⊎ ExactlyOne tuple s.one_of)
  unfolding check_one_of
  one_of_check =
      let (one, back) = count_one s.one_of in
      (
        λ h. elim (Bool-cases (is_nil s.one_of)) [
          | inl e ↦ inl (ground arith)
          | inr e ↦ inr (one (ground arith))
        ],
        λ h. elim h [ inl e ↦ rw e | inr e ↦ ground (arith, back e) ],
      )

  Accepts-of_checks :
      check_known s tuple ≡ none
      → check_values s.keys tuple ≡ none
      → check_required s.keys tuple ≡ none
      → check_one_of s tuple ≡ none
      → Accepts s tuple
  Accepts-of_checks a b c e = record {
    known = λ k v q.
        (present (get k s.keys)).0
          (ground (arith, All-get (λ x. known_check x ≡ none) tuple (known_loop.0 a) q));
    fits = λ k key v q q'.
        (Fits-check k key v q').0 (All-get (λ x. value_check x ≡ none) s.keys (value_loop.0 b) q);
    required = λ k key q must.
        (present (get k tuple)).0
          (ground (arith, All-get (λ x. required_check x ≡ none) s.keys (required_loop.0 c) q));
    one_of = one_of_check.0 e;
  }

  module _ (h : Accepts s tuple) where
    known_back : Distinct tuple → check_known s tuple ≡ none
    known_back d = known_loop.1 (
        get-All (λ x. known_check x ≡ none) tuple d (λ k v q. let (key, e) = h.known k v q in rw e))

    value_at :
        (k : String) (key : TenantKey) → get k s.keys ≡ some key → value_check (k, key) ≡ none
    unfolding check_value
    value_at k key q = elim (Option-cases (get k tuple)) [
      | inl e ↦ rw e
      | inr (v, e) ↦ (Fits-check k key v e).1 (h.fits k key v q e)
    ]

    required_at :
        (k : String) (key : TenantKey) → get k s.keys ≡ some key → required_check (k, key) ≡ none
    required_at k key q = elim (Bool-cases key.required) [
      | inl must ↦ let (v, e) = h.required k key q must in rw (must, e)
      | inr free ↦ rw free
    ]

    checks_of_Accepts :
        Distinct tuple
        → Distinct s.keys
        → (check_known s tuple ≡ none)
          × (check_values s.keys tuple ≡ none)
          × (check_required s.keys tuple ≡ none)
          × (check_one_of s tuple ≡ none)
    checks_of_Accepts dt ds = (
      known_back dt,
      value_loop.1 (get-All (λ x. value_check x ≡ none) s.keys ds value_at),
      required_loop.1 (get-All (λ x. required_check x ≡ none) s.keys ds required_at),
      one_of_check.1 h.one_of,
    )

  -- A nil schema accepts every tuple. A schema accepts a tuple exactly when every key of the
  -- tuple is declared, every declared key that is there fits its enumeration and its pattern,
  -- every required key is there, and, if there are key sets, the tuple has all keys of exactly
  -- one of them. The tuple and the schema are maps: no key stands twice.
  pub validate-Accepts :
      Distinct tuple
      → Distinct s.keys
      → (validate none tuple ≡ none) × ((validate (some s) tuple ≡ none) ↔ Accepts s tuple)
  unfolding validate
  validate-Accepts dt ds = (refl, (ahead, back))
    where
      ahead : validate (some s) tuple ≡ none → Accepts s tuple
      ahead h =
          let (a, r) = (or_else-none (check_known s tuple) _).0 h in
          let (b, r') = (or_else-none (check_values s.keys tuple) _).0 r in
          let (c, e) = (or_else-none (check_required s.keys tuple) (check_one_of s tuple)).0 r' in
          Accepts-of_checks a b c e

      back : Accepts s tuple → validate (some s) tuple ≡ none
      back h = let (a, b, c, e) = checks_of_Accepts h dt ds in rw (a, b, c, e)
