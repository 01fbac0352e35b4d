-- ===== src/Logger/Pretty/Laws.antt =====
-- The text of a record does not depend on the order in which Go ranges over a map.
use re_master.Prelude.{◌≡◌, refl, sym, ap, ◌∙◌, String, List, map, is_empty}
use mathlib.Core.List.{Perm, Permᴰ}
use mathlib.Core.Logic.{∥∥₁_elim}
use text.Mathlib.TextEquality.{IsScalar-prop}
use re_master.Prelude.Maps.{Map}
use re_master.Prelude.Sort.{sort-perm}
use re_master.Logger.Pretty.{Record, Format, handle, attr_block, attr_line, collect, no_fields}

map-Permᴰ : {A B : Type 0} (f : A → B) {l m : List A} → Permᴰ l m → Permᴰ (map f l) (map f m)
map-Permᴰ f Permᴰ.nil = Permᴰ.nil
map-Permᴰ f (Permᴰ.cons e p) = Permᴰ.cons (ap f e) (map-Permᴰ f p)
map-Permᴰ f (Permᴰ.swap e k) = Permᴰ.swap (ap f e) (ap f k)
map-Permᴰ f (Permᴰ.trans p q) = Permᴰ.trans (map-Permᴰ f p) (map-Permᴰ f q)

is_empty-Permᴰ : {A : Type 0} {l m : List A} → Permᴰ l m → is_empty l ≡ is_empty m
is_empty-Permᴰ Permᴰ.nil = refl
is_empty-Permᴰ (Permᴰ.cons e p) = refl
is_empty-Permᴰ (Permᴰ.swap e k) = refl
is_empty-Permᴰ (Permᴰ.trans p q) = is_empty-Permᴰ p ∙ is_empty-Permᴰ q

attr_block-Permᴰ : {l m : Map String} → Permᴰ l m → attr_block l ≡ attr_block m
unfolding attr_block
attr_block-Permᴰ p = rw (is_empty-Permᴰ p, sort-perm ∣ map-Permᴰ attr_line p ∣₁) refl

attr_block-perm : {l m : Map String} → Perm l m → attr_block l ≡ attr_block m
attr_block-perm p = ∥∥₁_elim p (hlevel IsScalar-prop) attr_block-Permᴰ

-- Two orders of ranging over the map of attributes, whichever they are, give the same text of a record:
-- the lines are sorted.
pub handle-range :
    (f g : Format) (r : Record)
    → f.paint ≡ g.paint
    → ((entries : Map String) → Perm (f.range entries) entries)
    → ((entries : Map String) → Perm (g.range entries) entries)
    → handle f r ≡ handle g r
unfolding handle
handle-range f g r colours f_order g_order =
    let entries = (collect r.attrs no_fields).attrs in
    let same : attr_block (f.range entries) ≡ attr_block (g.range entries) =
      attr_block-perm (f_order entries) ∙ sym (attr_block-perm (g_order entries)) in
    rw (colours, same) refl
