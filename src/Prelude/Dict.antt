-- ===== src/Prelude/Dict.antt =====
-- Go's maps with string keys: the list of the entries, in the order in which a `range` loop of the
-- run at hand visits them.
use text.Mathlib.Text.{◌==◌ as str_eq}
use text.Mathlib.TextEquality.{eq_iff}
use Prim.Native.String.{String}
use mathlib.Core.Path.{◌≡◌, ◌∙◌}
use mathlib.Core.Logic.{inl, inr}
use mathlib.Core.Bool.{true, false}
use mathlib.Core.List.{List, [], ◌∷◌}
use mathlib.Core.Option.{Option, none, some}
use native.Mathlib.Omega.{arith}
use memmy.Prelude.Tests.{if◌then◌else◌, Bool-cases}
use memmy.Prelude.Lists.{All}

abbrev pub Dict : Type 0 → Type 0
Dict V = List (String × V)

module _ {V : Type 0} where
  -- `m[k]`, and whether it is there.
  unfoldable pub get : String → Dict V → Option V
  get k [] = none
  get k ((j, v) ∷ m) = if str_eq j k then some v else get k m

  -- `m[k] = v`.
  unfoldable pub put : String → V → Dict V → Dict V
  put k v [] = (k, v) ∷ []
  put k v ((j, w) ∷ m) = if str_eq j k then (j, v) ∷ m else (j, w) ∷ put k v m

  -- A map has a key once.
  abbrev pub Distinct : Dict V → Type 0
  Distinct [] = Unit
  Distinct ((j, v) ∷ m) = (get j m ≡ none) × Distinct m

  get-same : (k j : String) (w : V) (m : Dict V) → str_eq j k ≡ true → some w ≡ get k ((j, w) ∷ m)
  unfolding get
  get-same k j w m h = ground arith

  get-other :
      (k j : String) (w : V) (m : Dict V) → str_eq j k ≡ false → get k m ≡ get k ((j, w) ∷ m)
  unfolding get
  get-other k j w m h = ground arith

  pub get-rest :
      (k j : String) (v w : V) (m : Dict V)
      → get j m ≡ none
      → get k m ≡ some v
      → get k ((j, w) ∷ m) ≡ some v
  unfolding get
  get-rest k j v w m absent e = ground (arith, eq_iff j k)

  -- What holds of every entry that the loop visits holds of every key that is there.
  pub All-get :
      (P : String × V → Type 0) (m : Dict V) {k : String} {v : V}
      → All P m
      → get k m ≡ some v
      → P (k, v)
  unfolding get
  All-get P [] h e = absurd (cc)
  All-get P ((j, w) ∷ m) {k} {v} h e = elim (Bool-cases (str_eq j k)) [
    | inl same ↦
        let value : w ≡ v = cc (get-same k j w m same, e) in rw (← (eq_iff j k).0 same, ← value) h.0
    | inr other ↦ All-get P m h.1 (get-other k j w m other ∙ e)
  ]

  -- The other way round: in a map every visited entry is the one that its key has.
  pub get-All :
      (P : String × V → Type 0) (m : Dict V)
      → Distinct m
      → ((k : String) (v : V) → get k m ≡ some v → P (k, v))
      → All P m
  unfolding get
  get-All P [] d h = tt
  get-All P ((j, w) ∷ m) d h = (
    h j w (ground (arith, eq_iff j j)),
    get-All P m d.1 (λ k v e. h k v (get-rest k j v w m d.0 e)),
  )
