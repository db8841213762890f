-- ===== src/Base/Int.antt =====
-- Python's `int`: signed numbers, their text, and `int(text)`.
use Prim.Native.Nat.{ℕ, zero, suc, ◌+◌, ◌-◌, ◌*◌}
use Prim.Native.Char.{code}
use Prim.Native.String
use Prim.Native.String.{String, slice}
use mathlib.Core.Path.{◌≡◌, refl}
use mathlib.Core.Bool.{Bool, true, false, ◌&&◌, ◌||◌}
use mathlib.Core.Option.{Option, none, some}
use mathlib.Core.List.{List, [], ◌∷◌, reverse}
use delta_gateway_chat_woot.Base.Tests.{ltb, leb, ◌==◌, if◌then◌else◌}
use delta_gateway_chat_woot.Base.Text.{decimal, str_eq}

-- `negsuc n` is -(n + 1).
pub data ℤ : Type 0 where
  pos : ℕ → ℤ
  negsuc : ℕ → ℤ

-- z <= 0
abbrev pub is_nonpos : ℤ → Bool
is_nonpos (pos n) = n == 0
is_nonpos (negsuc n) = true

-- z == 0
abbrev pub is_zero : ℤ → Bool
is_zero (pos n) = n == 0
is_zero (negsuc n) = false

-- z == w
abbrev pub int_eq : ℤ → ℤ → Bool
int_eq (pos n) (pos m) = n == m
int_eq (negsuc n) (negsuc m) = n == m
int_eq _ _ = false

-- max(1, z)
abbrev pub max_one : ℤ → ℤ
max_one (pos zero) = pos 1
max_one (pos (suc n)) = pos (suc n)
max_one (negsuc n) = pos 1

-- The value of a number that is known to be positive, and 0 for the others.
abbrev pub pos_part : ℤ → ℕ
pos_part (pos n) = n
pos_part (negsuc n) = 0

-- z > n
abbrev pub exceeds : ℤ → ℕ → Bool
exceeds (pos m) n = ltb n m
exceeds (negsuc m) n = false

-- str(z)
unfoldable pub int_text : ℤ → String
unfolding decimal
int_text (pos n) = decimal n
int_text (negsuc n) = String.◌++◌ "-" (decimal (suc n))

-- The code points of a text.
abbrev pub codes : String → List ℕ
codes String.[] = []
codes (String.◌∷◌ c s) = code c ∷ codes s

abbrev pub is_space : ℕ → Bool
is_space c = c == 32 || (leb 9 c && leb c 13) || (leb 28 c && leb c 31)

strip_left : List ℕ → List ℕ
strip_left [] = []
strip_left (c ∷ s) = let rest = strip_left s in if is_space c then rest else c ∷ s

-- The digits that are left, with `seen` for "the character before was a digit": an underscore
-- stands between two digits only.
digits_value : Bool → ℕ → List ℕ → Option ℕ
digits_value seen n [] = if seen then some n else none
digits_value seen n (c ∷ s) =
    let digit = digits_value true (n * 10 + (c - 48)) s in
    let gap = digits_value false n s in
    if leb 48 c && leb c 57 then digit else if (c == 95) && seen then gap else none

signed : List ℕ → Option ℤ
signed [] = none
signed (c ∷ s) =
    let minus = digits_value false 0 s in
    if c == 45
    then elim minus [ none ↦ none | some zero ↦ some (pos 0) | some (suc n) ↦ some (negsuc n) ]
    else elim (if c == 43 then minus else digits_value false 0 (c ∷ s)) [
      | none ↦ none
      | some n ↦ some (pos n)
    ]

-- int(text), with `none` for its ValueError; of the digits and spaces, those of ASCII.
unfoldable pub parse_int : String → Option ℤ
unfolding strip_left digits_value signed
parse_int s = signed (reverse (strip_left (reverse (strip_left (codes s)))))

trim_left : String → String
trim_left String.[] = ""
trim_left (String.◌∷◌ c s) =
    let rest = trim_left s in if is_space (code c) then rest else String.◌∷◌ c s

-- The text without the spaces at its end.
trim_right : String → String
trim_right String.[] = ""
trim_right (String.◌∷◌ c s) =
    let rest = trim_right s in if is_space (code c) && str_eq rest "" then "" else String.◌∷◌ c rest

-- s.strip(), with the spaces of ASCII
unfoldable pub trim : String → String
unfolding trim_left trim_right
trim s = trim_left (trim_right s)

lower_char : ℕ → String → String
lower_char n c =
    if leb 65 n && leb n 90 then slice "abcdefghijklmnopqrstuvwxyz" (n - 65) (n - 64) else c

-- s.lower(), with the letters of ASCII
unfoldable pub lower : String → String
unfolding lower_char
lower String.[] = ""
lower (String.◌∷◌ c s) = String.◌++◌ (lower_char (code c) (String.◌∷◌ c "")) (lower s)

lower_test : lower "A-Z[az] Ä" ≡ "a-z[az] Ä"
unfolding lower
lower_test = refl

parse_tests :
    (parse_int " 1_20\n" ≡ some (pos 120))
    × (parse_int "-7" ≡ some (negsuc 6))
    × (parse_int "+" ≡ none)
    × (parse_int "Wed, 21 Oct" ≡ none)
unfolding parse_int
parse_tests = (refl, refl, refl, refl)
