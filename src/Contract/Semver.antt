-- ===== src/Contract/Semver.antt =====
-- `_parse_semver`, with the part of Python's `str.split` and `int` that it uses. Digits and white
-- space are those of ASCII.
use Prim.Native.Char.{code}
use qcg_task.Prelude.{
  ℕ, ◌+◌, ◌*◌, ◌-◌, String, Bool, true, false, ◌&&◌, ◌||◌, Option, none, some, List, [], ◌∷◌, ◌++◌,
  if◌then◌else◌, leb, equal_ℕ,
}
use qcg_task.Prelude.Int.{ℤ, pos, ◌-ℤ◌, ltb_ℤ, leb_ℤ}

abbrev pub codes : String → List ℕ
codes String.[] = []
codes (String.◌∷◌ c s) = code c ∷ codes s

-- `version.split(".")`; `part` is what has been read of the current part
split_dots : List ℕ → List ℕ → List (List ℕ)
split_dots part [] = part ∷ []
split_dots part (c ∷ cs) = elim (equal_ℕ c b'.') [
  | true ↦ part ∷ split_dots [] cs
  | false ↦ split_dots (part ++ c ∷ []) cs
]

is_space : ℕ → Bool
is_space c = equal_ℕ c 32 || (leb 9 c && leb c 13) || (leb 28 c && leb c 31)

strip_left : List ℕ → List ℕ
unfolding is_space
strip_left [] = []
strip_left (c ∷ cs) = if is_space c then strip_left cs else c ∷ cs

-- drops the white space at the end
strip_right : List ℕ → List ℕ
unfolding is_space
strip_right [] = []
strip_right (c ∷ cs) = elim (strip_right cs) [
  | [] ↦ if is_space c then [] else c ∷ []
  | d ∷ ds ↦ c ∷ d ∷ ds
]

-- One character of a number: the value so far, and whether an underscore may follow.
digit_step : Bool → ℕ → ℕ → Option (Bool × ℕ)
digit_step after_digit acc c =
    if leb b'0' c && leb c b'9'
    then some (true, acc * 10 + (c - 48))
    else if equal_ℕ c b'_' && after_digit
    then some (false, acc)
    else none

read_digits : Bool → ℕ → List ℕ → Option ℕ
unfolding digit_step
read_digits after_digit acc [] = if after_digit then some acc else none
read_digits after_digit acc (c ∷ cs) = elim (digit_step after_digit acc c) [
  | none ↦ none
  | some (again, acc') ↦ read_digits again acc' cs
]

abbrev as_pos : Option ℕ → Option ℤ
as_pos none = none
as_pos (some n) = some (pos n)

abbrev as_neg : Option ℕ → Option ℤ
as_neg none = none
as_neg (some n) = some (pos 0 -ℤ pos n)

signed : List ℕ → Option ℤ
unfolding read_digits ◌-ℤ◌
signed [] = none
signed (c ∷ cs) =
    if equal_ℕ c b'-'
    then as_neg (read_digits false 0 cs)
    else if equal_ℕ c b'+'
    then as_pos (read_digits false 0 cs)
    else as_pos (read_digits false 0 (c ∷ cs))

-- `int(text)`, where `none` is a ValueError
parse_int : List ℕ → Option ℤ
unfolding strip_left strip_right signed
parse_int cs = signed (strip_right (strip_left cs))

pub record Version : Type 0 where
  pub major : ℤ
  pub minor : ℤ
  pub patch : ℤ

parse_parts : List (List ℕ) → Option Version
unfolding parse_int
parse_parts (a ∷ b ∷ c ∷ []) = elim (parse_int a) [
  | none ↦ none
  | some major ↦ elim (parse_int b) [
    | none ↦ none
    | some minor ↦ elim (parse_int c) [
      | none ↦ none
      | some patch ↦ some (record { major = major; minor = minor; patch = patch })
    ]
  ]
]
parse_parts _ = none

-- `none` is the ContractValidationError of a bad format.
unfoldable pub parse_semver : String → Option Version
unfolding split_dots parse_parts
parse_semver version = parse_parts (split_dots [] (codes version))

abbrev equal_ℤ : ℤ → ℤ → Bool
equal_ℤ a b = leb_ℤ a b && leb_ℤ b a

-- The order of Python's tuples.
unfoldable pub earlier : Version → Version → Bool
earlier v w =
    ltb_ℤ v.major w.major
    || (equal_ℤ v.major w.major
        && (ltb_ℤ v.minor w.minor || (equal_ℤ v.minor w.minor && ltb_ℤ v.patch w.patch)))
