-- ===== src/Chunker/Text/Trim.antt =====
-- What trimming keeps: every rune that the predicate refuses, in order.
use memmy.Prelude.{
  ℕ, ◌≡◌, refl, ◌∙◌, Bool, false, inl, inr, [], ◌∷◌, ◌++◌, arith, if◌then◌else◌, Bool-cases, length,
  ◌≤◌,
}
use memmy.Chunker.Text.{Text, is_space, cons_trimmed, trim_left, trim_right, trim_space}

-- The runes that `p` refuses.
module _ (p : ℕ → Bool) where
  abbrev pub without : Text → Text
  without [] = []
  without (c ∷ s) = if p c then without s else c ∷ without s

  pub without-append : (s t : Text) → without (s ++ t) ≡ without s ++ without t
  without-append [] t = refl
  without-append (c ∷ s) t = ground (arith, without-append s t)

  pub without-trim_left : (s : Text) → without (trim_left p s) ≡ without s
  unfolding trim_left
  without-trim_left [] = refl
  without-trim_left (c ∷ s) = ground (arith, without-trim_left s)

  without-cons_trimmed : (c : ℕ) (s : Text) → without (cons_trimmed p c s) ≡ without (c ∷ s)
  without-cons_trimmed c [] = ground arith
  without-cons_trimmed c (d ∷ s) = refl

  pub without-trim_right : (s : Text) → without (trim_right p s) ≡ without s
  unfolding trim_right
  without-trim_right [] = refl
  without-trim_right (c ∷ s) =
      without-cons_trimmed c (trim_right p s) ∙ ground (arith, without-trim_right s)

  pub length-trim_left : (s : Text) → length (trim_left p s) ≤ length s
  unfolding trim_left
  length-trim_left [] = omega arith
  length-trim_left (c ∷ s) = ground (arith, length-trim_left s)

  -- Nothing to trim on the left.
  abbrev pub StartsAt : Text → Type 0
  StartsAt [] = Unit
  StartsAt (c ∷ s) = p c ≡ false

  -- Nothing to trim on the right.
  abbrev pub EndsAt : Text → Type 0
  EndsAt [] = Unit
  EndsAt (c ∷ []) = p c ≡ false
  EndsAt (c ∷ d ∷ s) = EndsAt (d ∷ s)

  trim_left-StartsAt : (s : Text) → StartsAt (trim_left p s)
  unfolding trim_left
  trim_left-StartsAt [] = tt
  trim_left-StartsAt (c ∷ s) = elim (Bool-cases (p c)) [
    | inl e ↦ rw (e, trim_left) (trim_left-StartsAt s)
    | inr e ↦ rw (e, trim_left) e
  ]

  cons_trimmed-EndsAt : (c : ℕ) (s : Text) → EndsAt s → EndsAt (cons_trimmed p c s)
  cons_trimmed-EndsAt c [] h = elim (Bool-cases (p c)) [ inl e ↦ rw e tt | inr e ↦ rw e e ]
  cons_trimmed-EndsAt c (d ∷ s) h = h

  trim_right-EndsAt : (s : Text) → EndsAt (trim_right p s)
  unfolding trim_right
  trim_right-EndsAt [] = tt
  trim_right-EndsAt (c ∷ s) = cons_trimmed-EndsAt c (trim_right p s) (trim_right-EndsAt s)

  cons_trimmed-StartsAt : (c : ℕ) (s : Text) → p c ≡ false → StartsAt (cons_trimmed p c s)
  cons_trimmed-StartsAt c [] h = rw h h
  cons_trimmed-StartsAt c (d ∷ s) h = h

  trim_right-StartsAt : (s : Text) → StartsAt s → StartsAt (trim_right p s)
  unfolding trim_right
  trim_right-StartsAt [] h = tt
  trim_right-StartsAt (c ∷ s) h = cons_trimmed-StartsAt c (trim_right p s) h

-- No space at either end.
abbrev pub IsTrimmed : Text → Type 0
IsTrimmed s = StartsAt is_space s × EndsAt is_space s

pub trim_space-IsTrimmed : (s : Text) → IsTrimmed (trim_space s)
unfolding trim_space
trim_space-IsTrimmed s = (
  trim_right-StartsAt is_space (trim_left is_space s) (trim_left-StartsAt is_space s),
  trim_right-EndsAt is_space (trim_left is_space s),
)

-- Trimming drops spaces only.
pub without-trim_space : (s : Text) → without is_space (trim_space s) ≡ without is_space s
unfolding trim_space
without-trim_space s =
    without-trim_right is_space (trim_left is_space s) ∙ without-trim_left is_space s
