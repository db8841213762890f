-- ===== src/Base/Text.antt =====
-- Texts: prefixes, slices behind a prefix, joining, and decimal notation.
use Prim.Native.Nat.{ℕ, zero, suc, ◌/◌, ◌%◌}
use Prim.Native.String
use Prim.Native.String.{String, len, slice}
use mathlib.Core.Path.{◌≡◌, refl}
use mathlib.Core.Bool.{Bool, true}
use mathlib.Core.List.{List, [], ◌∷◌}
use text.Mathlib.Text.{◌==◌, starts_with as begins_with}
use text.Mathlib.TextPositions.{len-append, slice-append_right, starts_with-append}

-- a == b on texts
abbrev pub str_eq : String → String → Bool
str_eq a b = a == b

-- s.startswith(prefix)
unfoldable pub starts_with : String → String → Bool
starts_with s prefix = begins_with s prefix

-- s[len(prefix):], where `s` starts with `prefix`
unfoldable pub drop_prefix : String → String → String
drop_prefix s prefix = slice s (len prefix) (len s)

pub starts_with-append_lem : (p s : String) → starts_with (String.◌++◌ p s) p ≡ true
unfolding starts_with
starts_with-append_lem p s = starts_with-append p s

pub drop_prefix-append : (p s : String) → drop_prefix (String.◌++◌ p s) p ≡ s
unfolding drop_prefix
drop_prefix-append p s = rw (len-append p s) (slice-append_right p s)

-- sep.join(parts)
unfoldable pub join : String → List String → String
join sep [] = ""
join sep (x ∷ []) = x
join sep (x ∷ y ∷ rest) = String.◌++◌ x (String.◌++◌ sep (join sep (y ∷ rest)))

digit : ℕ → String
digit zero = "0"
digit (suc zero) = "1"
digit (suc (suc zero)) = "2"
digit (suc (suc (suc zero))) = "3"
digit (suc (suc (suc (suc zero)))) = "4"
digit (suc (suc (suc (suc (suc zero))))) = "5"
digit (suc (suc (suc (suc (suc (suc zero)))))) = "6"
digit (suc (suc (suc (suc (suc (suc (suc zero))))))) = "7"
digit (suc (suc (suc (suc (suc (suc (suc (suc zero)))))))) = "8"
digit _ = "9"

-- The digits of `n` in front of `acc`; the fuel `n + 1` is more than the number of digits.
decimal_from : ℕ → ℕ → String → String
decimal_from zero n acc = acc
decimal_from (suc fuel) zero acc = acc
decimal_from (suc fuel) (suc n) acc =
    decimal_from fuel (suc n / 10) (String.◌++◌ (digit (suc n % 10)) acc)

-- str(n)
unfoldable pub decimal : ℕ → String
unfolding decimal_from digit
decimal zero = "0"
decimal (suc n) = decimal_from (suc (suc n)) (suc n) ""

decimal_test : decimal 1903 ≡ "1903"
unfolding decimal
decimal_test = refl
