-- ===== src/Storage/Migrate/Numbered.antt =====
-- The numbers of the migrations: the files are numbered from one on, without a gap.
use mathlib.Core.Path.{subst}
use memmy.Prelude.{
  ℕ, zero, suc, ◌+◌, ◌≡◌, ◌<◌, refl, ap, ◌∙◌, arith, true, some, List, [], ◌∷◌, ◌++◌, All,
  All-append, length, Bool-cases, inl, inr,
}
use memmy.Prelude.Int.{ℤ, pos, int_ltb, int_eqb-eq}
use memmy.Storage.Session.{Result, ok, err}
use memmy.Storage.Migrate.Scripts.{
  Migration, check_gaps, checked, sort_versions, loaded, last_version,
}
use memmy.Storage.Migrate.Apply.{max_of, or_nought}

-- The versions 1 to n, in this order.
abbrev pub count_to : ℕ → List ℤ
count_to zero = []
count_to (suc n) = count_to n ++ pos (suc n) ∷ []

-- The versions are numbered from `i + 1` on, with no gap.
abbrev pub IsNumbered : ℕ → List Migration → Type 0
IsNumbered i [] = Unit
IsNumbered i (m ∷ ms) = (m.version ≡ pos (suc i)) × IsNumbered (suc i) ms

check_gaps-IsNumbered : (i : ℕ) (ms : List Migration) → check_gaps i ms ≡ true → IsNumbered i ms
unfolding check_gaps
check_gaps-IsNumbered i [] h = tt
check_gaps-IsNumbered i (m ∷ ms) h = (
  int_eqb-eq m.version (pos (i + 1)) (ground (arith, h)) ∙ ap pos (omega arith),
  subst (λ j. IsNumbered j ms) (omega arith) (check_gaps-IsNumbered (i + 1) ms (ground (arith, h))),
)

pub checked-IsNumbered : (ms migs : List Migration) → checked ms ≡ ok migs → IsNumbered 0 migs
checked-IsNumbered ms migs e = elim (Bool-cases (check_gaps 0 ms)) [
  | inl g ↦ let same : ms ≡ migs = cc (rw g at e) in rw (← same) (check_gaps-IsNumbered 0 ms g)
  | inr g ↦ absurd (cc (rw g at e))
]

pub loaded-IsNumbered :
    (r : Result (List Migration)) (migs : List Migration) → loaded r ≡ ok migs → IsNumbered 0 migs
loaded-IsNumbered (err x) migs e = absurd (cc)
loaded-IsNumbered (ok ms) migs e = checked-IsNumbered (sort_versions ms) migs e

last_version-IsNumbered :
    (i : ℕ) (m : Migration) (ms : List Migration)
    → IsNumbered i (m ∷ ms)
    → last_version (m ∷ ms) ≡ pos (i + length (m ∷ ms))
last_version-IsNumbered i m [] (h, u) = h ∙ ap pos (omega arith)
last_version-IsNumbered i m (n ∷ ns) (h, hs) =
    last_version-IsNumbered (suc i) n ns hs ∙ ap pos (omega arith)

pub last_version-length :
    (ms : List Migration) → IsNumbered 0 ms → last_version ms ≡ pos (length ms)
last_version-length [] num = refl
last_version-length (m ∷ ms) num = last_version-IsNumbered 0 m ms num ∙ ap pos (omega arith)

below_max :
    (xs : List ℤ) (v : ℤ) → All (λ u. int_ltb u v ≡ true) xs → max_of (xs ++ v ∷ []) ≡ some v
below_max [] v h = refl
below_max (u ∷ []) v (h, t) = rw h refl
below_max (u ∷ u' ∷ xs) v (h, hs) = rw (below_max (u' ∷ xs) v hs, h) refl

count_to-below : (n m : ℕ) → n < m → All (λ u. int_ltb u (pos m) ≡ true) (count_to n)
count_to-below zero m h = tt
count_to-below (suc n) m h =
    All-append (λ u. int_ltb u (pos m) ≡ true) (count_to n) (pos (suc n) ∷ [])
      (count_to-below n m (omega (arith, h))) (ground (arith, h), tt)

pub max_of-count_to : (n : ℕ) → or_nought (max_of (count_to n)) ≡ pos n
max_of-count_to zero = refl
max_of-count_to (suc n) =
    ap or_nought (below_max (count_to n) (pos (suc n)) (count_to-below n (suc n) (omega arith)))
