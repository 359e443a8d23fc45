-- ===== src/Config/Env.antt =====
-- `expandEnv` of internal/config/config.go, on the runes of the string.
pub mod Meaning
use memmy.Prelude.{
  ℕ, zero, suc, ◌+◌, Bool, true, false, ◌&&◌, ◌||◌, Option, none, some, List, [], ◌∷◌, ◌++◌, ◌==◌,
  if◌then◌else◌, length,
}
use memmy.Chunker.Text.{Text}

-- The string starts with `${`.
unfoldable pub opens : Text → Bool
opens [] = false
opens (c ∷ []) = false
opens (c ∷ d ∷ s) = c == b'$' && d == b'{'

-- `strings.Contains(s, "${")`.
unfoldable pub has_opening : Text → Bool
unfolding opens
has_opening [] = false
has_opening (c ∷ s) = opens (c ∷ s) || has_opening s

abbrev pub push : ℕ → Option (Text × Text) → Option (Text × Text)
push c none = none
push c (some (name, rest)) = some (c ∷ name, rest)

-- `strings.IndexByte(s, '}')`, as what stands before and after the brace.
unfoldable pub until_close : Text → Option (Text × Text)
until_close [] = none
until_close (c ∷ s) = if c == b'}' then some ([], s) else push c (until_close s)

abbrev pub after_opening : Text → Text
after_opening [] = []
after_opening (c ∷ []) = []
after_opening (c ∷ d ∷ s) = s

-- The name and the rest, if the string starts with a closed `${name}`.
unfoldable pub reference : Text → Option (Text × Text)
unfolding opens until_close
reference s = if opens s then until_close (after_opening s) else none

abbrev pub emit : Text → Option Text → Option Text
emit s none = none
emit s (some out) = some (s ++ out)

module _ (env : Text → Text) where
  -- The `for` loop, on fuel; what the builder gets from here on. An opening with no closing brace
  -- is written as it stands.
  unfoldable pub expand_loop : ℕ → Text → Option Text
  expand_loop zero s = none
  expand_loop (suc fuel) [] = some []
  expand_loop (suc fuel) (c ∷ s) = elim (reference (c ∷ s)) [
    | none ↦ emit (c ∷ []) (expand_loop fuel s)
    | some (name, rest) ↦ emit (env name) (expand_loop fuel rest)
  ]

  -- `os.Getenv` is `env`, with the empty text for a variable that is not set.
  unfoldable pub expand_env : Text → Option Text
  unfolding has_opening expand_loop
  expand_env s = if has_opening s then expand_loop (length s + 1) s else some s
