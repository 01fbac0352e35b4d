-- ===== src/Prelude/Text.antt =====
-- Parts of Go's strings package.
use Prim.Native.String
use Prim.Native.String.{String, [], ◌∷◌}
use Prim.Native.String.append as append
use Prim.Native.Char.{Char, code}
use Prim.Native.Nat.{ℕ, zero, suc, ◌+◌, ◌-◌}
use mathlib.Core.Bool.{Bool, true, false, not, ◌&&◌, ◌||◌}
use mathlib.Core.List.{List}
use mathlib.Core.Path.{◌≡◌, sym, ap, ◌∙◌}
use text.Mathlib.Text.{◌==◌}
use text.Mathlib.TextEquality.{starts_with_iff}
pub use text.Mathlib.Text.{starts_with}
use re_master.Prelude.Tests.{leb, nat_eq, if◌then◌else◌}

infixl 65 ◌<>◌
abbrev pub ◌<>◌ : String → String → String
s <> t = String.◌++◌ s t

-- `strings.Join`
unfoldable pub join : String → List String → String
join sep List.[] = ""
join sep (List.◌∷◌ s List.[]) = s
join sep (List.◌∷◌ s rest) = s <> sep <> join sep rest

-- The characters of `s` after the first `n`.
drop_chars : String → String → String
drop_chars [] s = s
drop_chars (c ∷ p) [] = ""
drop_chars (c ∷ p) (d ∷ s) = drop_chars p s

-- `strings.TrimPrefix`
unfoldable pub trim_prefix : String → String → String
unfolding drop_chars
trim_prefix s prefix = if starts_with s prefix then drop_chars prefix s else s

-- `unicode.IsSpace`
unfoldable pub is_space : ℕ → Bool
is_space c =
    (leb 9 c && leb c 13)
    || nat_eq c 0x20
    || nat_eq c 0x85
    || nat_eq c 0xa0
    || nat_eq c 0x1680
    || (leb 0x2000 c && leb c 0x200a)
    || nat_eq c 0x2028
    || nat_eq c 0x2029
    || nat_eq c 0x202f
    || nat_eq c 0x205f
    || nat_eq c 0x3000

trim_left : String → String
trim_left [] = ""
trim_left (c ∷ s) = let rest = trim_left s in if is_space (code c) then rest else c ∷ s

trim_right : String → String
trim_right [] = ""
trim_right (c ∷ s) =
    let rest = trim_right s in if is_space (code c) && rest == "" then "" else c ∷ rest

-- `strings.TrimSpace`
unfoldable pub trim_space : String → String
unfolding trim_left trim_right is_space
trim_space s = trim_right (trim_left s)

-- Whether a word begins: the loop of `strings.Fields` puts `c` before the words that follow it,
-- onto the first of them if the next character is no space.
abbrev grow : Char → Bool → List String → List String
grow c true List.[] = List.◌∷◌ (c ∷ "") List.[]
grow c true (List.◌∷◌ w ws) = List.◌∷◌ (c ∷ w) ws
grow c false ws = List.◌∷◌ (c ∷ "") ws

-- Whether `s` begins inside a word.
abbrev in_word : String → Bool
in_word [] = false
in_word (c ∷ s) = not (is_space (code c))

-- `strings.Fields`: the words between runs of white space.
unfoldable pub fields : String → List String
unfolding is_space
fields [] = List.[]
fields (c ∷ s) = let ws = fields s in if is_space (code c) then ws else grow c (in_word s) ws

-- `strings.Contains`
unfoldable pub contains : String → String → Bool
contains [] part = part == ""
contains (c ∷ s) part = starts_with (c ∷ s) part || contains s part

drop_chars-append : (p u : String) → drop_chars p (p <> u) ≡ u
unfolding drop_chars
drop_chars-append [] u = append.nil u
drop_chars-append (c ∷ p) u =
    ap (λ v. drop_chars (c ∷ p) v) (append.cons c p u) ∙ drop_chars-append p u

-- What `TrimPrefix` leaves of a text that has the prefix.
pub trim_prefix-append : (s p : String) → starts_with s p ≡ true → s ≡ p <> trim_prefix s p
unfolding trim_prefix
trim_prefix-append s p h =
    let (u, whole) = (starts_with_iff s p).0 h in
    rw h
      (sym whole ∙ ap (λ v. p <> v) (sym (drop_chars-append p u) ∙ ap (λ v. drop_chars p v) whole))

spaces : ℕ → String
spaces zero = ""
spaces (suc n) = " " <> spaces n

-- The verb `%-ns`: blanks after the text, up to `n` characters.
unfoldable pub pad_right : ℕ → String → String
unfolding spaces
pad_right n s = s <> spaces (n - String.count s)

-- The lower case of a letter, of those whose lower case is in ASCII: U+0130 and U+212A are the two beyond.
unfoldable pub lower : ℕ → ℕ
lower c =
    if leb 65 c && leb c 90
    then c + 32
    else if nat_eq c 0x130
    then 105
    else if nat_eq c 0x212a
    then 107
    else c

-- `strings.ToLower(s) == word`, for a word in ASCII.
unfoldable pub lower_is : String → String → Bool
unfolding lower
lower_is [] [] = true
lower_is [] (d ∷ word) = false
lower_is (c ∷ s) [] = false
lower_is (c ∷ s) (d ∷ word) = nat_eq (lower (code c)) (code d) && lower_is s word

-- Whether a text begins with the character of a code.
unfoldable pub first_is : ℕ → String → Bool
first_is n [] = false
first_is n (c ∷ s) = nat_eq (code c) n

pub first_is-append :
    (n : ℕ) (c : Char) (p u : String) → first_is n ((c ∷ p) <> u) ≡ nat_eq (code c) n
unfolding first_is
first_is-append n c p u = ap (first_is n) (append.cons c p u)
