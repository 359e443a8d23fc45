-- ===== src/Config/Validate/Transports.antt =====
-- The transports of a configuration: which are enabled, and what the checks of internal/config say
-- of them.
use memmy.Prelude.{
  ◌≡◌, ◌≢◌, ◌≤◌, refl, sym, ap, ◌∙◌, ◌↔◌, inl, inr, String, str_eq, eq_iff, true, false, not, ◌&&◌,
  Option, none, some, List, [], ◌∷◌, if◌then◌else◌, ltb, length, arith, Bool-cases,
}
use memmy.Prelude.Dict.{Dict, get, get-rest, Distinct, All-get, get-All}
use memmy.Service.Tenant.{is_nil, contains}
use memmy.Config.{TransportConfig}
use memmy.Config.Validate.{ConfigError, missing_addr, fail_if, stdio, enabled_names, check_addrs}
use memmy.Config.Validate.Checks.{fail_if-none, differs, loop_accepts}

-- The transport of this name is there and enabled.
abbrev pub Enabled : Dict TransportConfig → String → Type 0
Enabled ts name = (t : TransportConfig) × (get name ts ≡ some t) × (t.enabled ≡ true)

Enabled-rest :
    (m n : String) (u : TransportConfig) (ts : Dict TransportConfig)
    → get m ts ≡ none
    → Enabled ts n
    → Enabled ((m, u) ∷ ts) n
Enabled-rest m n u ts absent (t, e, on) = (t, get-rest n m t u ts absent e, on)

Enabled-contains :
    (ts : Dict TransportConfig) (n : String)
    → contains (enabled_names ts) n ≡ true
    → Distinct ts
    → Enabled ts n
unfolding enabled_names contains get
Enabled-contains [] n h d = absurd (cc)
Enabled-contains ((m, t) ∷ ts) n h d = elim (Bool-cases t.enabled) [
  | inl on ↦ elim (Bool-cases (str_eq m n)) [
    | inl same ↦ (t, rw same refl, on)
    | inr other ↦
        Enabled-rest m n t ts d.0 (Enabled-contains ts n (ground (arith, h, on, other)) d.1)
  ]
  | inr off ↦ Enabled-rest m n t ts d.0 (Enabled-contains ts n (ground (arith, h, off)) d.1)
]

contains-Enabled :
    (ts : Dict TransportConfig) (n : String) → Enabled ts n → contains (enabled_names ts) n ≡ true
unfolding enabled_names contains get
contains-Enabled [] n (t, e, on) = absurd (cc)
contains-Enabled ((m, u) ∷ ts) n (t, e, on) = elim (Bool-cases (str_eq m n)) [
  | inl same ↦
      let here : u ≡ t = ground (arith, e, same) in
      let first : u.enabled ≡ true = ap (λ v. v.enabled) here ∙ on in rw (first, same) refl
  | inr other ↦
      let there : get n ts ≡ some t = ground (arith, e, other) in
      ground (arith, contains-Enabled ts n (t, there, on))
]

contains-head : (xs : List String) → is_nil xs ≡ false → (x : String) × (contains xs x ≡ true)
unfolding contains
contains-head [] h = absurd (cc)
contains-head (x ∷ xs) h = (x, ground (arith, eq_iff x x))

contains-nil : (xs : List String) (x : String) → contains xs x ≡ true → is_nil xs ≡ false
unfolding contains
contains-nil [] x h = absurd (cc)
contains-nil (y ∷ xs) x h = refl

contains-one :
    (xs : List String) (a b : String)
    → length xs ≤ 1
    → contains xs a ≡ true
    → contains xs b ≡ true
    → a ≡ b
unfolding contains
contains-one [] a b small h k = absurd (cc)
contains-one (x ∷ []) a b small h k =
    sym ((eq_iff x a).0 (ground (arith, h))) ∙ (eq_iff x b).0 (ground (arith, k))
contains-one (x ∷ y ∷ xs) a b small h k = absurd (omega (arith, small))

module _ (ts : Dict TransportConfig) (d : Distinct ts) where
  pub enabled_lem : (is_nil (enabled_names ts) ≡ false) ↔ ((name : String) × Enabled ts name)
  enabled_lem = (
    λ h. let (x, k) = contains-head (enabled_names ts) h in (x, Enabled-contains ts x k d),
    λ h. contains-nil (enabled_names ts) h.0 (contains-Enabled ts h.0 h.1),
  )

only_one :
    (ts : Dict TransportConfig) (s : String)
    → Distinct ts
    → ((n : String) → Enabled ts n → n ≡ s)
    → length (enabled_names ts) ≤ 1
unfolding enabled_names get
only_one [] s d h = omega arith
only_one ((m, t) ∷ ts) s d h = elim (Bool-cases t.enabled) [
  | inl on ↦ elim (Bool-cases (is_nil (enabled_names ts))) [
    | inl alone ↦ one (enabled_names ts) alone on
    | inr more ↦
        let (x, k) = (enabled_lem ts d.1).0 more in
        let same : x ≡ m =
          h x (Enabled-rest m x t ts d.0 k) ∙ sym (h m (t, ground (arith, eq_iff m m), on)) in
        let gone : get x ts ≡ none = ap (λ n. get n ts) same ∙ d.0 in absurd (cc (sym gone ∙ k.1))
  ]
  | inr off ↦
      let rest : length (enabled_names ts) ≤ 1 =
        only_one ts s d.1 (λ n e. h n (Enabled-rest m n t ts d.0 e)) in
      rw off rest
]
  where
    one :
        (xs : List String)
        → is_nil xs ≡ true
        → t.enabled ≡ true
        → length (if t.enabled then m ∷ xs else xs) ≤ 1
    one [] e on = rw on (omega arith)
    one (x ∷ xs) e on = absurd (cc)

-- `stdio` is alone: if it is enabled, no other transport is.
abbrev pub StdioAlone : Dict TransportConfig → Type 0
StdioAlone ts = Enabled ts stdio → (name : String) → Enabled ts name → name ≡ stdio

-- Every enabled transport but `stdio` has an address.
abbrev pub HaveAddrs : Dict TransportConfig → Type 0
HaveAddrs ts =
    (name : String) (t : TransportConfig)
    → get name ts ≡ some t
    → t.enabled ≡ true
    → name ≢ stdio
    → t.addr ≢ ""

module _ (ts : Dict TransportConfig) (d : Distinct ts) where
  pub stdio_lem :
      ((contains (enabled_names ts) stdio && ltb 1 (length (enabled_names ts))) ≡ false)
      ↔ StdioAlone ts
  stdio_lem = (
    λ h on name e.
        let there = contains-Enabled ts stdio on in
        contains-one (enabled_names ts) name stdio (ground (arith, h, there))
          (contains-Enabled ts name e) there,
    λ h. elim (Bool-cases (contains (enabled_names ts) stdio)) [
      | inl there ↦
          let small = only_one ts stdio d (h (Enabled-contains ts stdio there d)) in
          ground (arith, there, small)
      | inr gone ↦ rw gone refl
    ],
  )

  abbrev addr_check : String × TransportConfig → Option ConfigError
  addr_check e =
      fail_if (e.1.enabled && (not (str_eq e.0 stdio) && str_eq e.1.addr "")) (missing_addr e.0)

  addr_check-none :
      (name : String) (t : TransportConfig)
      → (addr_check (name, t) ≡ none) ↔ (t.enabled ≡ true → name ≢ stdio → t.addr ≢ "")
  addr_check-none name t = (
    λ h on other.
        (differs t.addr "").0
          (ground (arith, fail_if-none _ _, h, on, (differs name stdio).1 other)),
    λ h. elim (Bool-cases (t.enabled && (not (str_eq name stdio) && str_eq t.addr ""))) [
      | inl bad ↦ absurd (
          h (ground (arith, bad)) ((differs name stdio).0 (ground (arith, bad)))
            ((eq_iff t.addr "").0 (ground (arith, bad))))
      | inr fine ↦ rw fine refl
    ],
  )

  pub addrs_lem : (check_addrs ts ≡ none) ↔ HaveAddrs ts
  unfolding check_addrs
  addrs_lem =
      let (ahead, back) = loop_accepts addr_check check_addrs refl (λ e m. refl) ts in
      (
        λ h name t e.
            (addr_check-none name t).0 (All-get (λ x. addr_check x ≡ none) ts (ahead h) e),
        λ h. back (
            get-All (λ x. addr_check x ≡ none) ts d
              (λ name t e. (addr_check-none name t).1 (h name t e))),
      )
