-- ===== src/Prelude/Sort.antt =====
-- `sort.Strings`: by insertion, in the order of Go's comparison of strings, which for UTF-8 is that of the
-- code points.
use Prim.Native.String.{String}
use Prim.Native.Char.{code}
use mathlib.Core.Path.{◌≡◌, refl, ◌∙◌}
use mathlib.Core.Logic.{∥∥₁_elim}
use mathlib.Core.Bool.{Bool, true, false, ◌&&◌}
use mathlib.Core.List.{List, [], ◌∷◌, Perm, Permᴰ}
use native.Mathlib.Omega.{arith}
use text.Mathlib.TextEquality.{codes_equal, IsScalar-prop}
use re_master.Prelude.Tests.{ltb, nat_eq, if◌then◌else◌}

-- `s <= t`
unfoldable pub text_le : String → String → Bool
text_le String.[] t = true
text_le (String.◌∷◌ c s) String.[] = false
text_le (String.◌∷◌ c s) (String.◌∷◌ d t) =
    let rest = text_le s t in
    if ltb (code c) (code d) then true else nat_eq (code c) (code d) && rest

text_le_total : (s t : String) → text_le s t ≡ false → text_le t s ≡ true
unfolding text_le
text_le_total String.[] t h = cc
text_le_total (String.◌∷◌ c s) String.[] h = refl
text_le_total (String.◌∷◌ c s) (String.◌∷◌ d t) h = ground (arith, text_le_total s t)

text_le_trans : (s t u : String) → text_le s t ≡ true → text_le t u ≡ true → text_le s u ≡ true
unfolding text_le
text_le_trans String.[] t u h k = refl
text_le_trans (String.◌∷◌ c s) String.[] u h k = cc
text_le_trans (String.◌∷◌ c s) (String.◌∷◌ d t) String.[] h k = cc
text_le_trans (String.◌∷◌ c s) (String.◌∷◌ d t) (String.◌∷◌ e u) h k =
    ground (arith, text_le_trans s t u)

text_le_antisym : (s t : String) → text_le s t ≡ true → text_le t s ≡ true → s ≡ t
unfolding text_le
text_le_antisym String.[] String.[] h k = refl
text_le_antisym String.[] (String.◌∷◌ d t) h k = cc
text_le_antisym (String.◌∷◌ c s) String.[] h k = cc
text_le_antisym (String.◌∷◌ c s) (String.◌∷◌ d t) h k =
    ground (arith, text_le_antisym s t, codes_equal c d)

unfoldable pub insert_text : String → List String → List String
unfolding text_le
insert_text s [] = s ∷ []
insert_text s (t ∷ ts) = let rest = insert_text s ts in if text_le s t then s ∷ t ∷ ts else t ∷ rest

unfoldable pub sort_strings : List String → List String
unfolding insert_text
sort_strings [] = []
sort_strings (s ∷ ss) = insert_text s (sort_strings ss)

insert_text_comm :
    (s t : String) (l : List String)
    → insert_text s (insert_text t l) ≡ insert_text t (insert_text s l)
unfolding insert_text
insert_text_comm s t [] = ground (arith, text_le_total s t, text_le_antisym s t)
insert_text_comm s t (u ∷ l) = ground (
  arith,
  insert_text_comm s t l,
  text_le_total s t,
  text_le_total t s,
  text_le_antisym s t,
  text_le_trans s t u,
  text_le_trans t s u,
  text_le_total s u,
  text_le_total t u,
  text_le_trans s u t,
  text_le_trans t u s,
)

sort-Permᴰ : {l m : List String} → Permᴰ l m → sort_strings l ≡ sort_strings m
unfolding sort_strings
sort-Permᴰ Permᴰ.nil = refl
sort-Permᴰ (Permᴰ.cons {l₂ = m} e p) = let rest = sort-Permᴰ p in rw (e, rest)
sort-Permᴰ (Permᴰ.swap {l = l} e f) = rw (e, f) (insert_text_comm _ _ (sort_strings l))
sort-Permᴰ (Permᴰ.trans p q) = sort-Permᴰ p ∙ sort-Permᴰ q

-- The order of the texts before the sorting does not matter.
pub sort-perm : {l m : List String} → Perm l m → sort_strings l ≡ sort_strings m
sort-perm p = ∥∥₁_elim p (hlevel IsScalar-prop) sort-Permᴰ
