-- ===== src/Prelude/Hex.antt =====
-- Go's `hex.EncodeToString`, with the length of what it returns, and decimal numbers.
use Prim.Native.Nat.{ℕ, zero, suc, ◌+◌, ◌*◌, ◌/◌, ◌%◌}
use Prim.Native.Char.{Char, len_utf8}
use Prim.Native.String.{String, [], ◌∷◌, len}
use Prim.Native.String.len as len_laws
use mathlib.Core.Path.{◌≡◌, refl}
use mathlib.Core.List.{List}
use native.Mathlib.Omega.{arith}
use re_master.Prelude.Tests.{ltb, if◌then◌else◌}
use re_master.Prelude.Lists.{length}

nth : ℕ → String → Char
nth i [] = "?"
nth zero (c ∷ s) = c
nth (suc i) (c ∷ s) = nth i s

abbrev hex_digit : ℕ → Char
hex_digit n = nth n "0123456789abcdef"

unfoldable pub encode_to_string : List ℕ → String
unfolding nth
encode_to_string List.[] = ""
encode_to_string (List.◌∷◌ b bs) = hex_digit (b / 16) ∷ hex_digit (b % 16) ∷ encode_to_string bs

-- The decimal digits of `n` before `acc`, with as many rounds as there is fuel.
decimal_from : ℕ → ℕ → String → String
decimal_from zero n acc = acc
decimal_from (suc fuel) n acc =
    let longer = hex_digit (n % 10) ∷ acc in
    let rest = decimal_from fuel (n / 10) longer in if ltb n 10 then longer else rest

-- `%d` of a number: it has no more digits than `n + 1`.
unfoldable pub decimal : ℕ → String
unfolding nth decimal_from
decimal n = decimal_from (n + 1) n ""

decimal_test : (decimal 404 ≡ "404") × (decimal 0 ≡ "0")
unfolding decimal
decimal_test = (refl, refl)

-- Every character of the text has one byte.
abbrev Ascii : String → Type 0
Ascii [] = Unit
Ascii (c ∷ s) = (len_utf8 c ≡ 1) × Ascii s

len-nth : (i : ℕ) (s : String) → Ascii s → len_utf8 (nth i s) ≡ 1
unfolding nth
len-nth i [] h = refl
len-nth zero (c ∷ s) (h, hs) = h
len-nth (suc i) (c ∷ s) (h, hs) = len-nth i s hs

all-Ascii : Ascii "0123456789abcdef"
all-Ascii = omega arith

-- Two characters for each byte.
pub len-encode_to_string : (bs : List ℕ) → len (encode_to_string bs) ≡ 2 * length bs
unfolding encode_to_string
len-encode_to_string List.[] = refl
len-encode_to_string (List.◌∷◌ b bs) =
    rw (len_laws.cons, len_laws.cons)
      (omega (
        arith,
        len-encode_to_string bs,
        len-nth (b / 16) "0123456789abcdef" all-Ascii,
        len-nth (b % 16) "0123456789abcdef" all-Ascii,
      ))
