-- ===== src/Types/Canonical/Order.antt =====
-- The canonical form and the order in which a map is visited.
use memmy.Prelude.{
  ◌≡◌, ◌≢◌, refl, length, length-append, sym, ap, ◌∙◌, true, List, [], ◌∷◌, ◌++◌, if◌then◌else◌,
  arith, Bool-cases, ◌⊎◌, inl, inr, All,
}
use mathlib.Core.List.{Perm, Permᴰ, append_assoc}
use mathlib.Core.Logic.{∥∥₁_elim}
use mathlib.Core.Path.{subst}
use memmy.Chunker.Text.{Text, trim_space}
use memmy.Types.Canonical.{
  Tuple, text_eq, text_leb, insert, sort, overwrite, normalized, trimmed_keys, render,
  canonical_tenant,
}

text_leb_total : (s t : Text) → (text_leb s t ≡ true) ⊎ (text_leb t s ≡ true)
unfolding text_leb
text_leb_total [] t = inl refl
text_leb_total (c ∷ s) [] = inr refl
text_leb_total (c ∷ s) (d ∷ t) = ground (arith, text_leb_total s t)

text_leb_antisymm : (s t : Text) → text_leb s t ≡ true → text_leb t s ≡ true → s ≡ t
unfolding text_leb
text_leb_antisymm [] [] h k = refl
text_leb_antisymm [] (d ∷ t) h k = absurd (cc)
text_leb_antisymm (c ∷ s) [] h k = absurd (cc)
text_leb_antisymm (c ∷ s) (d ∷ t) h k = ground (arith, text_leb_antisymm s t)

text_leb_trans : (s t u : Text) → text_leb s t ≡ true → text_leb t u ≡ true → text_leb s u ≡ true
unfolding text_leb
text_leb_trans [] t u h k = refl
text_leb_trans (c ∷ s) [] u h k = absurd (cc)
text_leb_trans (c ∷ s) (d ∷ t) [] h k = absurd (cc)
text_leb_trans (c ∷ s) (d ∷ t) (e ∷ u) h k = ground (arith, text_leb_trans s t u)

insert_comm : (a b : Text) (l : List Text) → insert a (insert b l) ≡ insert b (insert a l)
unfolding insert
insert_comm a b [] = ground (arith, text_leb_total a b, text_leb_antisymm a b)
insert_comm a b (c ∷ l) = ground (
  arith,
  insert_comm a b l,
  text_leb_total a b,
  text_leb_antisymm a b,
  text_leb_trans a b c,
  text_leb_trans b a c,
)

abbrev pub NotKey : Text → Text × Text → Type 0
NotKey k e = trim_space e.0 ≢ k

-- No two keys are equal after trimming.
abbrev pub DistinctKeys : Tuple → Type 0
DistinctKeys [] = Unit
DistinctKeys (e ∷ m) = All (NotKey (trim_space e.0)) m × DistinctKeys m

sort-perm : {m m' : Tuple} → Permᴰ m m' → sort (trimmed_keys m) ≡ sort (trimmed_keys m')
unfolding sort
sort-perm Permᴰ.nil = refl
sort-perm (Permᴰ.cons {a = a} {b = b} {l₁ = l} {l₂ = l'} p h) = rw (p, sort-perm h)
sort-perm (Permᴰ.swap {a = a} {b = b} {l = l} p q) =
    rw (← p, ← q) (insert_comm (trim_space a.0) (trim_space b.0) (sort (trimmed_keys l)))
sort-perm (Permᴰ.trans h k) = sort-perm h ∙ sort-perm k

All-perm : (P : Text × Text → Type 0) {m m' : Tuple} → Permᴰ m m' → All P m → All P m'
All-perm P Permᴰ.nil h = tt
All-perm P (Permᴰ.cons p k) h = (rw (← p) h.0, All-perm P k h.1)
All-perm P (Permᴰ.swap p q) h = (rw (← q) h.1.0, (rw (← p) h.0, h.1.1))
All-perm P (Permᴰ.trans k k') h = All-perm P k' (All-perm P k h)

DistinctKeys-perm : {m m' : Tuple} → Permᴰ m m' → DistinctKeys m → DistinctKeys m'
DistinctKeys-perm Permᴰ.nil d = tt
DistinctKeys-perm (Permᴰ.cons {a = a} p k) d =
    (rw (← p) (All-perm (NotKey (trim_space a.0)) k d.0), DistinctKeys-perm k d.1)
DistinctKeys-perm (Permᴰ.swap {l = l} p q) d = (
  (rw (← p, ← q) (λ e. d.0.0 (sym e)), subst (λ t. All (NotKey (trim_space t.0)) l) q d.1.0),
  (subst (λ t. All (NotKey (trim_space t.0)) l) p d.0.1, d.1.1),
)
DistinctKeys-perm (Permᴰ.trans k k') d = DistinctKeys-perm k' (DistinctKeys-perm k d)

text_eq-true : (s t : Text) → text_eq s t ≡ true → s ≡ t
unfolding text_eq
text_eq-true [] [] h = refl
text_eq-true [] (d ∷ t) h = absurd (cc)
text_eq-true (c ∷ s) [] h = absurd (cc)
text_eq-true (c ∷ s) (d ∷ t) h = ground (arith, text_eq-true s t)

-- Two writes to different keys can change places.
overwrite-swap :
    (k old : Text) (a b : Text × Text) (m : Tuple)
    → trim_space b.0 ≢ trim_space a.0
    → overwrite k old (a ∷ b ∷ m) ≡ overwrite k old (b ∷ a ∷ m)
unfolding overwrite
overwrite-swap k old a b m h = elim (Bool-cases (text_eq (trim_space a.0) k)) [
  | inl e ↦ elim (Bool-cases (text_eq (trim_space b.0) k)) [
    | inl e' ↦ absurd (h (text_eq-true _ _ e' ∙ sym (text_eq-true _ _ e)))
    | inr e' ↦ rw (e, e')
  ]
  | inr e ↦ rw e
]

overwrite-perm :
    (k old : Text) {m m' : Tuple}
    → DistinctKeys m
    → Permᴰ m m'
    → overwrite k old m ≡ overwrite k old m'
unfolding overwrite
overwrite-perm k old d Permᴰ.nil = refl
overwrite-perm k old d (Permᴰ.cons {a = a} {b = b} p h) =
    rw p (overwrite-perm k (if text_eq (trim_space b.0) k then trim_space b.1 else old) d.1 h)
overwrite-perm k old d (Permᴰ.swap {a = a} {b = b} {l = l} p q) =
    rw (← p, ← q) (overwrite-swap k old a b l d.0.0)
overwrite-perm k old d (Permᴰ.trans h h') =
    overwrite-perm k old d h ∙ overwrite-perm k old (DistinctKeys-perm h d) h'

render-ext :
    (m m' : Tuple) (ks : List Text)
    → ((k : Text) → normalized k m ≡ normalized k m')
    → render m ks ≡ render m' ks
unfolding render
render-ext m m' [] h = refl
render-ext m m' (k ∷ []) h = rw (h k)
render-ext m m' (k ∷ j ∷ ks) h = rw (h k, render-ext m m' (j ∷ ks) h)

text_set : IsSet Text
text_set = hlevel

-- Where no two keys trim to the same text, the canonical form is that of the map: it does not
-- depend on the order in which a run visits the entries.
pub canonical_tenant-perm :
    {m m' : Tuple} → DistinctKeys m → Perm m m' → canonical_tenant m ≡ canonical_tenant m'
unfolding canonical_tenant
canonical_tenant-perm {m} {m'} d h =
    ∥∥₁_elim h (text_set _ _) λ p.
      rw (sort-perm p) (render-ext m m' (sort (trimmed_keys m')) (λ k. overwrite-perm k [] d p))

append-cancel : (k s t : Text) → k ++ s ≡ k ++ t → s ≡ t
append-cancel [] s t h = h
append-cancel (c ∷ k) s t h = append-cancel k s t (ground arith)

append-prefix : (s t x y : Text) → length s ≡ length t → s ++ x ≡ t ++ y → s ≡ t
append-prefix [] [] x y e h = refl
append-prefix [] (d ∷ t) x y e h = absurd (omega arith)
append-prefix (c ∷ s) [] x y e h = absurd (omega arith)
append-prefix (c ∷ s) (d ∷ t) x y e h =
    let tails = append-prefix s t x y (omega arith) (ground arith) in ground (arith, tails)

-- The canonical form of two entries whose keys trim to `k`, the last of which has the value `v`.
abbrev twice : Text → Text → Text
twice k v = k ++ b'=' ∷ (v ++ 0 ∷ (k ++ b'=' ∷ v))

twice-injective : (k v w : Text) → twice k v ≡ twice k w → v ≡ w
twice-injective k v w h =
    let same =
      append-cancel k (b'=' ∷ (v ++ 0 ∷ (k ++ b'=' ∷ v))) (b'=' ∷ (w ++ 0 ∷ (k ++ b'=' ∷ w))) h in
    let tails : v ++ 0 ∷ (k ++ b'=' ∷ v) ≡ w ++ 0 ∷ (k ++ b'=' ∷ w) = ground arith in
    append-prefix v w (0 ∷ (k ++ b'=' ∷ v)) (0 ∷ (k ++ b'=' ∷ w))
      (omega (
        arith,
        ap length tails,
        length-append {0} v (0 ∷ (k ++ b'=' ∷ v)),
        length-append {0} w (0 ∷ (k ++ b'=' ∷ w)),
        length-append {0} k (b'=' ∷ v),
        length-append {0} k (b'=' ∷ w),
      ))
      tails

text_eq_self : (t : Text) → text_eq t t ≡ true
unfolding text_eq
text_eq_self [] = refl
text_eq_self (c ∷ t) = ground (arith, text_eq_self t)

twice_lem :
    (a b : Text × Text)
    → trim_space a.0 ≡ trim_space b.0
    → canonical_tenant (a ∷ b ∷ []) ≡ twice (trim_space a.0) (trim_space b.1)
unfolding canonical_tenant render sort insert overwrite
twice_lem a b e = elim (Bool-cases (text_leb (trim_space a.0) (trim_space a.0))) [
  | inl le ↦ rw (← e, le) (rw (e, text_eq_self (trim_space b.0)) refl)
  | inr gt ↦ rw (← e, gt) (rw (e, text_eq_self (trim_space b.0)) refl)
]

-- Two keys that trim to one text, with values that do not trim to one text, make the canonical
-- form depend on the order of the visits: such a tuple has no stable form.
pub canonical_tenant_unstable :
    (a b : Text × Text)
    → trim_space a.0 ≡ trim_space b.0
    → trim_space a.1 ≢ trim_space b.1
    → canonical_tenant (a ∷ b ∷ []) ≢ canonical_tenant (b ∷ a ∷ [])
canonical_tenant_unstable a b e h same = h (
    sym (
      twice-injective (trim_space a.0) (trim_space b.1) (trim_space a.1)
        (sym (twice_lem a b e) ∙ same ∙ twice_lem b a (sym e) ∙ rw e)))

-- An `=` can stand in a key or in a value: a tuple with the key `k` and the value `v=w`, and one
-- with the key `k=v` and the value `w`, all of them trimmed, have one canonical form, and so one
-- tenant.
pub canonical_tenant_collision :
    (k v w : Text)
    → trim_space k ≡ k
    → trim_space w ≡ w
    → trim_space (k ++ b'=' ∷ v) ≡ k ++ b'=' ∷ v
    → trim_space (v ++ b'=' ∷ w) ≡ v ++ b'=' ∷ w
    → canonical_tenant ((k, v ++ b'=' ∷ w) ∷ []) ≡ canonical_tenant ((k ++ b'=' ∷ v, w) ∷ [])
unfolding canonical_tenant render sort insert overwrite
canonical_tenant_collision k v w ek ew ekv evw =
    rw (ek, ew, ekv, evw, text_eq_self k, text_eq_self (k ++ b'=' ∷ v))
      (sym (append_assoc k (b'=' ∷ v) (b'=' ∷ w)))
