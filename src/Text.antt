-- ===== src/Text.antt =====
-- What the program uses of Python's `str`: `strip`, `in`, and `str` of an integer.
use Prim.Native.String.append
use Prim.Native.String.{◌++◌}
use text.Mathlib.Text.{starts_with}
use text.Mathlib.TextPositions.{starts_with-append}
use fall2026_18749_project.Prelude.{
  ℕ, zero, suc, ◌/◌, ◌%◌, String, Char, code, ◌≡◌, refl, sym, subst, Bool, true, false, ◌&&◌, ◌||◌,
  arith, ltb, leb, nat_eq, if◌then◌else◌,
}

-- The characters that `str.strip()` removes: `str.isspace` of a character with this code.
unfoldable pub is_space : ℕ → Bool
is_space c =
    (leb 9 c && leb c 13)
    || (leb 28 c && leb c 32)
    || nat_eq c 0x85
    || nat_eq c 0xa0
    || nat_eq c 0x1680
    || (leb 0x2000 c && leb c 0x200a)
    || nat_eq c 0x2028
    || nat_eq c 0x2029
    || nat_eq c 0x202f
    || nat_eq c 0x205f
    || nat_eq c 0x3000

-- `not s.strip()`
unfoldable pub is_blank : String → Bool
unfolding is_space
is_blank String.[] = true
is_blank (String.◌∷◌ c s) = is_space (code c) && is_blank s

-- `needle in text`
unfoldable pub contains : String → String → Bool
contains String.[] needle = starts_with "" needle
contains (String.◌∷◌ c s) needle = starts_with (String.◌∷◌ c s) needle || contains s needle

digit : ℕ → Char
digit zero = "0"
digit (suc zero) = "1"
digit (suc (suc zero)) = "2"
digit (suc (suc (suc zero))) = "3"
digit (suc (suc (suc (suc zero)))) = "4"
digit (suc (suc (suc (suc (suc zero))))) = "5"
digit (suc (suc (suc (suc (suc (suc zero)))))) = "6"
digit (suc (suc (suc (suc (suc (suc (suc zero))))))) = "7"
digit (suc (suc (suc (suc (suc (suc (suc (suc zero)))))))) = "8"
digit (suc (suc (suc (suc (suc (suc (suc (suc (suc n))))))))) = "9"

-- The decimal digits of `n`, before `rest`. A number has fewer digits than itself plus one.
show_from : ℕ → ℕ → String → String
show_from zero n rest = rest
show_from (suc fuel) n rest =
    let longer = show_from fuel (n / 10) (String.◌∷◌ (digit (n % 10)) rest) in
    if ltb n 10 then String.◌∷◌ (digit n) rest else longer

-- `str(n)`
unfoldable pub show : ℕ → String
unfolding show_from digit
show n = show_from (suc n) n ""

show_example : show 1073 ≡ "1073"
unfolding show
show_example = refl

pub is_blank-append : (s t : String) → is_blank s ≡ false → is_blank (s ++ t) ≡ false
unfolding is_blank
is_blank-append String.[] t h = ground arith
is_blank-append (String.◌∷◌ c s) t h =
    subst (λ (u : String). is_blank u ≡ false) (sym (append.cons c s t))
      (ground (arith, is_blank-append s t))

contains-starts_with : (s needle : String) → starts_with s needle ≡ true → contains s needle ≡ true
unfolding contains
contains-starts_with String.[] needle h = h
contains-starts_with (String.◌∷◌ c s) needle h = rw h

pub contains-append : (s t : String) → contains (s ++ t) s ≡ true
contains-append s t = contains-starts_with (s ++ t) s (starts_with-append s t)
