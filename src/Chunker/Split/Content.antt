-- ===== src/Chunker/Split/Content.antt =====
-- What the sentences of `SplitSentences` hold.
use memmy.Prelude.{
  ℕ, zero, suc, ◌+◌, ◌≤◌, ◌<◌, ◌≡◌, ◌≢◌, refl, ap, sym, ◌∙◌, true, false, ◌&&◌, Option, some, List,
  [], ◌∷◌, ◌++◌, ◌==◌, length, arith, Bool-cases, inl, inr, All, All-append,
}
use mathlib.Core.List.{append-nil, append_assoc}
use memmy.Chunker.Text.{Text, trim_left, trim_space, is_space}
use memmy.Chunker.Text.Trim.{
  without, without-append, without-trim_left, without-trim_space, IsTrimmed, trim_space-IsTrimmed,
  length-trim_left,
}
use memmy.Chunker.Split.{
  is_terminator, is_empty, is_abbreviation_or_initial, flush, coalesce, prepend, split_loop,
  split_sentences,
}

-- All the text of the sentences, with no separator.
abbrev pub concat : List Text → Text
concat [] = []
concat (s ∷ ss) = s ++ concat ss

abbrev pub ink : Text → Text
ink s = without is_space s

abbrev pub IsSentence : Text → Type 0
IsSentence s = (s ≢ []) × IsTrimmed s

concat-append : (ss ts : List Text) → concat (ss ++ ts) ≡ concat ss ++ concat ts
concat-append [] ts = refl
concat-append (s ∷ ss) ts =
    ap (λ t. s ++ t) (concat-append ss ts) ∙ sym (append_assoc s (concat ss) (concat ts))

is_empty-true : (s : Text) → is_empty s ≡ true → s ≡ []
unfolding is_empty
is_empty-true [] h = refl
is_empty-true (c ∷ s) h = absurd (cc)

is_empty-false : (s : Text) → is_empty s ≡ false → s ≢ []
unfolding is_empty
is_empty-false [] h = absurd (cc)
is_empty-false (c ∷ s) h = λ e. cc

ink-flush : (buf : Text) → ink (concat (flush buf)) ≡ ink buf
unfolding flush
ink-flush buf = elim (Bool-cases (is_empty (trim_space buf))) [
  | inl e ↦ rw e (ap ink (sym (is_empty-true (trim_space buf) e)) ∙ without-trim_space buf)
  | inr e ↦ rw e (ap ink (append-nil (trim_space buf)) ∙ without-trim_space buf)
]

flush-IsSentence : (buf : Text) → All IsSentence (flush buf)
unfolding flush
flush-IsSentence buf = elim (Bool-cases (is_empty (trim_space buf))) [
  | inl e ↦ rw e tt
  | inr e ↦ rw e ((is_empty-false (trim_space buf) e, trim_space-IsTrimmed buf), tt)
]

coalesce-append : (buf rest : Text) → (coalesce buf rest).0 ++ (coalesce buf rest).1 ≡ buf ++ rest
unfolding coalesce
coalesce-append buf [] = refl
coalesce-append buf (r ∷ rest) = elim (Bool-cases (is_terminator r)) [
  | inl e ↦ rw e (coalesce-append (buf ++ r ∷ []) rest ∙ append_assoc buf (r ∷ []) rest)
  | inr e ↦ rw e refl
]

length-coalesce : (buf rest : Text) → length (coalesce buf rest).1 ≤ length rest
unfolding coalesce
length-coalesce buf [] = omega arith
length-coalesce buf (r ∷ rest) = ground (arith, length-coalesce (buf ++ r ∷ []) rest)

-- The outcome is a list of sentences that holds the ink of `text`, in order.
abbrev pub SplitsTo : Text → Option (List Text) → Type 0
SplitsTo text o =
    (out : List Text) × (o ≡ some out) × (ink (concat out) ≡ ink text) × All IsSentence out

SplitsTo-flush : (buf : Text) → SplitsTo (buf ++ []) (some (flush buf))
SplitsTo-flush buf =
    (flush buf, refl, ink-flush buf ∙ ap ink (sym (append-nil buf)), flush-IsSentence buf)

-- A flush, and the rest from an empty buffer.
SplitsTo-prepend :
    (buf rest : Text) (o : Option (List Text))
    → SplitsTo (trim_left is_space rest) o
    → SplitsTo (buf ++ rest) (prepend (flush buf) o)
SplitsTo-prepend buf rest o (out, e, kept, all) = (
  flush buf ++ out,
  rw e refl,
  ap ink (concat-append (flush buf) out)
      ∙ without-append is_space (concat (flush buf)) (concat out)
      ∙ cc (ink-flush buf, kept, without-trim_left is_space rest)
      ∙ sym (without-append is_space buf rest),
  All-append IsSentence (flush buf) out (flush-IsSentence buf) all,
)

SplitsTo-subst : {s t : Text} {o : Option (List Text)} → s ≡ t → SplitsTo s o → SplitsTo t o
SplitsTo-subst e (out, q, kept, all) = (out, q, kept ∙ ap ink e, all)

split_loop_total :
    (fuel : ℕ) (buf rest : Text)
    → length rest < fuel
    → SplitsTo (buf ++ rest) (split_loop fuel buf rest)
unfolding split_loop
split_loop_total zero buf rest h = elim h [ ]
split_loop_total (suc fuel) buf [] h = SplitsTo-flush buf
split_loop_total (suc fuel) buf (r ∷ rest) h =
    let written = buf ++ r ∷ [] in
    let run = coalesce written rest in
    let next = trim_left is_space run.1 in
    let all : run.0 ++ run.1 ≡ buf ++ r ∷ rest =
      coalesce-append written rest ∙ append_assoc buf (r ∷ []) rest in
    let short : length run.1 < fuel = omega (arith, length-coalesce written rest) in
    let fresh : SplitsTo (buf ++ r ∷ rest) (prepend (flush run.0) (split_loop fuel [] next)) =
      SplitsTo-subst all (
        SplitsTo-prepend run.0 run.1 (split_loop fuel [] next)
          (split_loop_total fuel [] next (omega (arith, length-trim_left is_space run.1)))) in
    elim (Bool-cases (is_terminator r)) [
      | inr plain ↦ rw plain (
          SplitsTo-subst (append_assoc buf (r ∷ []) rest)
            (split_loop_total fuel written rest (omega arith)))
      | inl ends ↦ rw ends (elim (Bool-cases (is_empty next)) [
        | inl last ↦ rw last fresh
        | inr more ↦ rw more (elim (Bool-cases (r == b'.' && is_abbreviation_or_initial run.0)) [
          | inl short_form ↦
              rw short_form (SplitsTo-subst all (split_loop_total fuel run.0 run.1 short))
          | inr new ↦ rw new fresh
        ])
      ])
    ]

-- For every text `SplitSentences` returns; its sentences are not empty, have no space at either
-- end, and together hold every rune of the text that is no space, in order.
pub split_sentences_total : (text : Text) → SplitsTo text (split_sentences text)
unfolding split_sentences
split_sentences_total text = elim (Bool-cases (is_empty (trim_space text))) [
  | inl e ↦ rw e (
    [],
    refl,
    sym (sym (without-trim_space text) ∙ ap ink (is_empty-true (trim_space text) e)),
    tt,
  )
  | inr e ↦ rw e (
      let (out, q, kept, all) =
        split_loop_total (length (trim_space text) + 1) [] (trim_space text) (omega arith) in
      (out, q, kept ∙ without-trim_space text, all))
]
