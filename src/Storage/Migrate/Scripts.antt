-- ===== src/Storage/Migrate/Scripts.antt =====
-- The migration files of internal/storage/neo4j/migrate.go: names, statements and their order.
use memmy.Prelude.{
  ℕ, ◌+◌, ◌*◌, ◌-◌, ◌^◌, Bool, true, false, not, ◌&&◌, ◌||◌, Option, none, some, List, [], ◌∷◌,
  ◌++◌, if◌then◌else◌, ltb, leb, ◌==◌,
}
use memmy.Prelude.Int.{ℤ, pos, neg, int_ltb, int_eqb}
use memmy.Chunker.Text.{Text, trim_right, trim_space}
use memmy.Service.Tenant.{is_nil}
use memmy.Storage.Session.{message, Result, ok, err}

pub record Migration : Type 0 where
  pub version : ℤ
  pub name : Text
  pub statements : List Text

-- An entry of the embedded directory, with the content of the file.
pub record Entry : Type 0 where
  pub name : Text
  pub is_dir : Bool
  pub raw : Text

-- `strings.HasPrefix`.
unfoldable pub has_prefix : Text → Text → Bool
has_prefix s [] = true
has_prefix [] (c ∷ p) = false
has_prefix (d ∷ s) (c ∷ p) = d == c && has_prefix s p

-- `strings.HasSuffix`.
unfoldable pub has_suffix : Text → Text → Bool
unfolding has_prefix
has_suffix [] p = is_nil p
has_suffix (d ∷ s) p = (has_prefix (d ∷ s) p && has_prefix p (d ∷ s)) || has_suffix s p

abbrev pub cons_line : ℕ → List Text → List Text
cons_line c [] = (c ∷ []) ∷ []
cons_line c (l ∷ ls) = (c ∷ l) ∷ ls

-- `strings.Split(raw, "\n")`.
unfoldable pub split_lines : Text → List Text
split_lines [] = [] ∷ []
split_lines (c ∷ s) = let rest = split_lines s in if c == 10 then [] ∷ rest else cons_line c rest

-- `strings.TrimRight(s, ";")`.
abbrev pub trim_semicolons : Text → Text
trim_semicolons s = trim_right (λ c. c == b';') s

-- A statement that is not empty.
abbrev pub append_statement : Text → List Text → List Text
append_statement s out = if is_nil s then out else out ++ s ∷ []

-- The loop over the lines: the statements and what the builder holds.
unfoldable pub split_loop : List Text → List Text × Text → List Text × Text
unfolding has_prefix has_suffix trim_space trim_right
split_loop [] st = st
split_loop (line ∷ lines) (out, b) =
    let trimmed = trim_space line in
    let b1 = b ++ line ++ 10 ∷ [] in
    split_loop lines (
      if is_nil trimmed || has_prefix trimmed (b'/' ∷ b'/' ∷ [])
      then (out, b)
      else if has_suffix trimmed (b';' ∷ [])
      then (append_statement (trim_semicolons (trim_space b1)) out, [])
      else (out, b1))

unfoldable pub split_cypher_statements : Text → List Text
unfolding split_loop split_lines trim_space
split_cypher_statements raw =
    let (out, b) = split_loop (split_lines raw) ([], []) in append_statement (trim_space b) out

abbrev pub is_digit : ℕ → Bool
is_digit c = leb b'0' c && leb c b'9'

-- The decimal digits, after what has been read.
unfoldable pub digits : ℕ → Text → Option ℕ
digits n [] = some n
digits n (c ∷ s) = let rest = digits (n * 10 + (c - b'0')) s in if is_digit c then rest else none

abbrev pub nonempty_digits : Text → Option ℕ
nonempty_digits [] = none
nonempty_digits (c ∷ s) = digits 0 (c ∷ s)

-- An `int` has 64 bits.
abbrev pub positive_int : Option ℕ → Option ℤ
positive_int none = none
positive_int (some n) = if ltb n (2 ^ 63) then some (pos n) else none

abbrev pub negative_int : Option ℕ → Option ℤ
negative_int none = none
negative_int (some n) = if leb n (2 ^ 63) then some (neg n) else none

-- `strconv.Atoi`.
unfoldable pub atoi : Text → Option ℤ
unfolding digits
atoi [] = none
atoi (c ∷ s) =
    if c == b'-'
    then negative_int (nonempty_digits s)
    else if c == b'+'
    then positive_int (nonempty_digits s)
    else positive_int (nonempty_digits (c ∷ s))

abbrev pub push : ℕ → Option Text → Option Text
push c none = none
push c (some s) = some (c ∷ s)

-- What stands before the first underscore.
unfoldable pub before_underscore : Text → Option Text
before_underscore [] = none
before_underscore (c ∷ s) =
    let rest = before_underscore s in if c == b'_' then some [] else push c rest

abbrev pub version_of : Option ℤ → Result ℤ
version_of none = err (message "neo4jstore: parse migration version")
version_of (some v) = ok v

abbrev pub parse_cut : Option Text → Result ℤ
parse_cut none = err (message "neo4jstore: bad migration filename")
parse_cut (some []) = err (message "neo4jstore: bad migration filename")
parse_cut (some (c ∷ s)) = version_of (atoi (c ∷ s))

unfoldable pub parse_migration_version : Text → Result ℤ
unfolding before_underscore atoi
parse_migration_version name = parse_cut (before_underscore name)

abbrev pub is_script : Entry → Bool
is_script e =
    not e.is_dir && has_suffix e.name (b'.' ∷ b'c' ∷ b'y' ∷ b'p' ∷ b'h' ∷ b'e' ∷ b'r' ∷ [])

abbrev pub read_script : Entry → Result ℤ → Result (List Migration) → Result (List Migration)
read_script e (err x) rest = err x
read_script e (ok v) (err x) = err x
read_script e (ok v) (ok ms) =
    ok (record { version = v; name = e.name; statements = split_cypher_statements e.raw } ∷ ms)

-- The loop over the entries.
unfoldable pub read_entries : List Entry → Result (List Migration)
unfolding has_suffix parse_migration_version split_cypher_statements
read_entries [] = ok []
read_entries (e ∷ es) =
    let rest = read_entries es in
    if is_script e then read_script e (parse_migration_version e.name) rest else rest

-- `sort.Slice` by version.
unfoldable pub insert_version : Migration → List Migration → List Migration
insert_version m [] = m ∷ []
insert_version m (n ∷ ns) =
    let rest = insert_version m ns in if int_ltb n.version m.version then n ∷ rest else m ∷ n ∷ ns

unfoldable pub sort_versions : List Migration → List Migration
unfolding insert_version
sort_versions [] = []
sort_versions (m ∷ ms) = insert_version m (sort_versions ms)

-- `out[i].Version != i+1`, from the index on.
unfoldable pub check_gaps : ℕ → List Migration → Bool
check_gaps i [] = true
check_gaps i (m ∷ ms) = int_eqb m.version (pos (i + 1)) && check_gaps (i + 1) ms

abbrev pub checked : List Migration → Result (List Migration)
checked ms = if check_gaps 0 ms then ok ms else err (message "neo4jstore: migration version gap")

abbrev pub loaded : Result (List Migration) → Result (List Migration)
loaded (err x) = err x
loaded (ok ms) = checked (sort_versions ms)

unfoldable pub load_migrations : List Entry → Result (List Migration)
unfolding read_entries sort_versions check_gaps
load_migrations entries = loaded (read_entries entries)

-- `migs[len(migs)-1].Version`.
abbrev pub last_version : List Migration → ℤ
last_version [] = pos 0
last_version (m ∷ []) = m.version
last_version (m ∷ n ∷ ns) = last_version (n ∷ ns)

abbrev pub required : Result (List Migration) → Result ℤ
required (err x) = err x
required (ok ms) = ok (last_version ms)

unfoldable pub required_schema_version : List Entry → Result ℤ
unfolding load_migrations
required_schema_version entries = required (load_migrations entries)
