-- ===== src/Logger/Pretty.antt =====
-- `PrettyHandler.Handle` of shared/logger/logger.go: the text of a record. Colours are fatih/color's, and
-- the order in which Go ranges over a map is a parameter.
pub mod Laws
use re_master.Prelude.{
  ℕ, zero, suc, ◌-◌, String, Bool, List, [], ◌∷◌, ◌++◌, map, is_empty, ◌==◌, nat_eq, if◌then◌else◌,
}
use re_master.Prelude.Int.{ℤ, pos, negsuc}
use re_master.Prelude.Maps.{Map, insert}
use re_master.Prelude.Sort.{sort_strings}
use re_master.Prelude.Text.{◌<>◌, join, pad_right}

-- An attribute: its value by `Value.String`, and by the verb `%v` of `Value.Any`.
pub record Attr : Type 0 where
  pub key : String
  pub text : String
  pub shown : String

-- `slog.Record`: its time in the handler's layout, its level, a number, and the text of that.
pub record Record : Type 0 where
  pub time : String
  pub level : ℤ
  pub level_text : String
  pub message : String
  pub attrs : List Attr

pub data Colour : Type 0 where
  cyan green yellow red white faint_white : Colour

-- How colours are put on texts, and the order of ranging over a map.
pub record Format : Type 0 where
  pub paint : Colour → String → String
  pub range : Map String → Map String

unfoldable pub level_colour : ℤ → Colour
level_colour (negsuc n) = if nat_eq n 3 then cyan else white
level_colour (pos n) =
    if nat_eq n 0 then green else if nat_eq n 4 then yellow else if nat_eq n 8 then red else white

-- What the loop over the attributes keeps.
pub record Fields : Type 0 where
  pub correlation_id : String
  pub service : String
  pub request_id : String
  pub attrs : Map String

unfoldable pub collect_one : Attr → Fields → Fields
unfolding insert
collect_one a f =
    if a.key == "correlation_id"
    then record f { correlation_id = a.text }
    else if a.key == "service"
    then record f { service = a.text }
    else if a.key == "request_id"
    then record f { request_id = a.text }
    else if a.key == "time"
    then f
    else if a.key == "level"
    then f
    else record f { attrs = insert a.key a.shown f.attrs }

unfoldable pub collect : List Attr → Fields → Fields
unfolding collect_one
collect [] f = f
collect (a ∷ rest) f = collect rest (collect_one a f)

abbrev no_fields : Fields
no_fields = record { correlation_id = ""; service = ""; request_id = ""; attrs = [] }

abbrev part : String → String → List String
part label value = if value == "" then [] else (label <> ":" <> value) ∷ []

unfoldable pub context_parts : Fields → List String
context_parts f = part "svc" f.service ++ (part "cid" f.correlation_id ++ part "rid" f.request_id)

unfoldable pub context_text : List String → String
unfolding join
context_text parts = if is_empty parts then "" else "[" <> join " " parts <> "] "

unfoldable pub attr_line : String × String → String
unfolding pad_right
attr_line (key, shown) = "    " <> pad_right 12 key <> ": " <> shown

-- The lines of the attributes, from the map in the order of ranging over it.
unfoldable pub attr_block : Map String → String
unfolding attr_line sort_strings join
attr_block entries =
    if is_empty entries then "" else "\n" <> join "\n" (sort_strings (map attr_line entries))

unfoldable pub handle : Format → Record → String
unfolding level_colour collect context_parts context_text attr_block pad_right
handle f r =
    let fields = collect r.attrs no_fields in
    f.paint faint_white r.time
    <> " "
    <> f.paint (level_colour r.level) (pad_right 5 r.level_text)
    <> " "
    <> context_text (context_parts fields)
    <> r.message
    <> attr_block (f.range fields.attrs)
