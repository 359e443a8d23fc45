-- ===== src/Tests/Codec.antt =====
-- An encoding of maps of strings that stands for `encoding/json`: each string is the codes of its
-- characters, one more each, with a nought behind them.
use Prim.Native.Char.{Char, char, code, IsScalar}
use Prim.Native.Nat.{Ordering, compare}
use Prim.Native.String.{String}
use text.Mathlib.TextEquality.{IsScalar-prop}
use memmy.Prelude.{ℕ, zero, suc, ◌≡◌, refl, ap, List, [], ◌∷◌}
use memmy.Prelude.Dict.{Dict, get}
use memmy.Chunker.Text.{Text}
use memmy.Storage.Messages.{Json, IsJson}

abbrev Less : Ordering → Type 0
Less Ordering.lt = Unit
Less Ordering.eq = ⊥
Less Ordering.gt = ⊥

abbrev BothLess : Ordering → Ordering → Type 0
BothLess Ordering.lt o = Less o
BothLess Ordering.eq o = ⊥
BothLess Ordering.gt o = ⊥

abbrev Scalar : Ordering → Ordering → Ordering → Type 0
Scalar Ordering.lt o p = Unit
Scalar Ordering.eq o p = BothLess o p
Scalar Ordering.gt o p = BothLess o p

abbrev of_less : (n : ℕ) (o : Ordering) → (Less o → IsScalar n) → Char
of_less n Ordering.lt f = char n (f tt)
of_less n Ordering.eq f = char 0 tt
of_less n Ordering.gt f = char 0 tt

abbrev of_both : (n : ℕ) (o p : Ordering) → (BothLess o p → IsScalar n) → Char
of_both n Ordering.lt p f = of_less n p f
of_both n Ordering.eq p f = char 0 tt
of_both n Ordering.gt p f = char 0 tt

abbrev of_scalar : (n : ℕ) (o p q : Ordering) → (Scalar o p q → IsScalar n) → Char
of_scalar n Ordering.lt p q f = char n (f tt)
of_scalar n Ordering.eq p q f = of_both n p q f
of_scalar n Ordering.gt p q f = of_both n p q f

of_less-char :
    (n : ℕ) (p : IsScalar n) (o : Ordering) (f : Less o → IsScalar n)
    → Less o
    → of_less n o f ≡ char n p
of_less-char n p Ordering.lt f h = ap (char n) (IsScalar-prop n (f tt) p)
of_less-char n p Ordering.eq f h = absurd h
of_less-char n p Ordering.gt f h = absurd h

of_both-char :
    (n : ℕ) (p : IsScalar n) (o q : Ordering) (f : BothLess o q → IsScalar n)
    → BothLess o q
    → of_both n o q f ≡ char n p
of_both-char n p Ordering.lt q f h = of_less-char n p q f h
of_both-char n p Ordering.eq q f h = absurd h
of_both-char n p Ordering.gt q f h = absurd h

of_scalar-char :
    (n : ℕ) (p : IsScalar n) (o q r : Ordering) (f : Scalar o q r → IsScalar n)
    → Scalar o q r
    → of_scalar n o q r f ≡ char n p
of_scalar-char n p Ordering.lt q r f h = ap (char n) (IsScalar-prop n (f tt) p)
of_scalar-char n p Ordering.eq q r f h = of_both-char n p q r f h
of_scalar-char n p Ordering.gt q r f h = of_both-char n p q r f h

unfoldable to_char : ℕ → Char
to_char n = of_scalar n (compare n 55296) (compare 57343 n) (compare n 1114112) (λ h. h)

to_char-code : (c : Char) → to_char (code c) ≡ c
unfolding to_char
to_char-code (char n p) =
    of_scalar-char n p (compare n 55296) (compare 57343 n) (compare n 1114112) (λ h. h) p

-- A string in front of what follows.
unfoldable encode_string : String → Text → Text
encode_string String.[] rest = zero ∷ rest
encode_string (String.◌∷◌ c s) rest = suc (code c) ∷ encode_string s rest

abbrev push : Char → List String → List String
push c [] = []
push c (s ∷ ss) = String.◌∷◌ c s ∷ ss

unfoldable pub decode_strings : Text → List String
unfolding to_char
decode_strings [] = []
decode_strings (zero ∷ rest) = String.[] ∷ decode_strings rest
decode_strings (suc n ∷ rest) = push (to_char n) (decode_strings rest)

decode_strings-encode_string :
    (s : String) (rest : Text) → decode_strings (encode_string s rest) ≡ s ∷ decode_strings rest
unfolding decode_strings encode_string
decode_strings-encode_string String.[] rest = refl
decode_strings-encode_string (String.◌∷◌ c s) rest =
    rw (decode_strings-encode_string s rest)
      (ap (λ d. String.◌∷◌ d s ∷ decode_strings rest) (to_char-code c))

unfoldable pub encode_entries : Dict String → Text
unfolding encode_string
encode_entries [] = []
encode_entries ((k, v) ∷ m) = encode_string k (encode_string v (encode_entries m))

abbrev pairs : List String → Dict String
pairs [] = []
pairs (k ∷ []) = []
pairs (k ∷ v ∷ ss) = (k, v) ∷ pairs ss

pairs-decode : (m : Dict String) → pairs (decode_strings (encode_entries m)) ≡ m
unfolding encode_entries decode_strings
pairs-decode [] = refl
pairs-decode ((k, v) ∷ m) =
    rw
      (
        decode_strings-encode_string k (encode_string v (encode_entries m)),
        decode_strings-encode_string v (encode_entries m),
      )
      (ap (λ m'. (k, v) ∷ m') (pairs-decode m))

abbrev unmarshal_text : Text → Dict String
unmarshal_text [] = []
unmarshal_text (c ∷ raw) = pairs (decode_strings raw)

abbrev pub codec : Json
codec = record { marshal = λ m. 123 ∷ encode_entries m; unmarshal = unmarshal_text }

pub codec-IsJson : IsJson codec
codec-IsJson = record {
  unmarshal-marshal = λ m d k. ap (get k) (pairs-decode m);
  marshal-ne-nil = λ m e. cc e;
}
