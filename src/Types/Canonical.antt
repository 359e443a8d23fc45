-- ===== src/Types/Canonical.antt =====
-- `CanonicalTenant` of internal/types/types.go.
pub mod Order
use memmy.Prelude.{
  ℕ, ◌+◌, Bool, true, false, ◌&&◌, List, [], ◌∷◌, ◌++◌, ltb, ◌==◌, if◌then◌else◌, map, ◌||◌,
}
use memmy.Chunker.Text.{Text, trim_space}

-- A tuple: the entries of the map in the order in which the run visits them.
abbrev pub Tuple : Type 0
Tuple = List (Text × Text)

unfoldable pub text_eq : Text → Text → Bool
text_eq [] [] = true
text_eq [] (d ∷ t) = false
text_eq (c ∷ s) [] = false
text_eq (c ∷ s) (d ∷ t) = c == d && text_eq s t

-- Go's order of strings: the order of the bytes of UTF-8 is the order of the code points.
unfoldable pub text_leb : Text → Text → Bool
text_leb [] t = true
text_leb (c ∷ s) [] = false
text_leb (c ∷ s) (d ∷ t) = ltb c d || (c == d && text_leb s t)

unfoldable pub insert : Text → List Text → List Text
unfolding text_leb
insert k [] = k ∷ []
insert k (j ∷ js) = if text_leb k j then k ∷ j ∷ js else j ∷ insert k js

-- `sort.Strings`.
unfoldable pub sort : List Text → List Text
unfolding insert
sort [] = []
sort (k ∷ ks) = insert k (sort ks)

-- The value that the map `normalized` ends up with at `k`: every visited entry whose key trims to
-- `k` overwrites it.
unfoldable pub overwrite : Text → Text → Tuple → Text
unfolding text_eq trim_space
overwrite k old [] = old
overwrite k old ((j, v) ∷ m) =
    overwrite k (if text_eq (trim_space j) k then trim_space v else old) m

abbrev pub normalized : Text → Tuple → Text
normalized k m = overwrite k [] m

abbrev pub trimmed_keys : Tuple → List Text
trimmed_keys m = map (λ e. trim_space e.0) m

-- The builder: a NUL before every key but the first.
unfoldable pub render : Tuple → List Text → Text
unfolding overwrite
render m [] = []
render m (k ∷ []) = k ++ b'=' ∷ normalized k m
render m (k ∷ j ∷ ks) = k ++ b'=' ∷ (normalized k m ++ 0 ∷ render m (j ∷ ks))

unfoldable pub canonical_tenant : Tuple → Text
unfolding render sort
canonical_tenant m = render m (sort (trimmed_keys m))
