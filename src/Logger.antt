-- ===== src/Logger.antt =====
-- shared/logger/logger.go: loggers, their handlers, and loggers in contexts. What slog makes of a record
-- in JSON is a parameter.
pub mod Pretty
pub mod Laws
use re_master.Prelude.{
  ℕ, ◌+◌, ◌-◌, String, Bool, true, false, ◌&&◌, Option, none, some, List, [], ◌∷◌, ◌++◌, ◌==◌,
  nat_eq, leb, if◌then◌else◌,
}
use re_master.Prelude.Int.{ℤ, pos, negsuc}
use re_master.Prelude.Text.{lower_is}
use re_master.Prelude.Maps.{Map}
use re_master.Logger.Pretty.{Record, Attr, Format, handle}

-- `LogConfig`, as far as it is read.
pub record LogConfig : Type 0 where
  pub level : String
  pub format : String

-- `PrettyHandler` holds nothing; a JSON handler holds its least level and the attributes it was given.
pub data Handler : Type 0 where
  pretty : Handler
  json : ℤ → List Attr → Handler

unfoldable pub level_of : String → ℤ
unfolding lower_is
level_of name =
    if lower_is name "debug"
    then negsuc 3
    else if lower_is name "warn"
    then pos 4
    else if lower_is name "error"
    then pos 8
    else pos 0

-- `WithAttrs`; that of the pretty handler returns it as it is.
unfoldable pub with_attrs : List Attr → Handler → Handler
with_attrs attrs pretty = pretty
with_attrs attrs (json least held) = json least (held ++ attrs)

abbrev text_attr : String → String → Attr
text_attr key value = record { key = key; text = value; shown = value }

-- `New`, whose logger is its handler.
unfoldable pub new : LogConfig → Handler
unfolding level_of with_attrs
new cfg =
    with_attrs (text_attr "app" "remaster" ∷ [])
      (if cfg.format == "pretty" then pretty else json (level_of cfg.level) [])

-- `Get`, with the instance that it has made before, if any.
abbrev pub get_from : LogConfig → Option Handler → Handler
get_from cfg none = new cfg
get_from cfg (some instance_made) = instance_made

unfoldable pub get : LogConfig → Option Handler → Handler × Option Handler
unfolding new
get cfg made = (get_from cfg made, some (get_from cfg made))

unfoldable pub with_service : Handler → String → Handler
unfolding with_attrs
with_service logger name = with_attrs (text_attr "service" name ∷ []) logger

unfoldable pub with_correlation_id : Handler → String → Handler
unfolding with_attrs
with_correlation_id logger id = with_attrs (text_attr "correlation_id" id ∷ []) logger

unfoldable pub with_request_id : Handler → String → Handler
unfolding with_attrs
with_request_id logger id = with_attrs (text_attr "request_id" id ∷ []) logger

abbrev int_le : ℤ → ℤ → Bool
int_le (pos a) (pos b) = leb a b
int_le (pos a) (negsuc b) = false
int_le (negsuc a) (pos b) = true
int_le (negsuc a) (negsuc b) = leb b a

-- `Enabled`; that of slog's JSON handler compares with its least level.
unfoldable pub enabled : Handler → ℤ → Bool
enabled pretty level = true
enabled (json least held) level = int_le least level

-- What is written of a record: none if it is not enabled.
abbrev pub written_by : Format → (List Attr → Record → String) → Handler → Record → String
written_by f json_line pretty r = handle f r
written_by f json_line (json least held) r = json_line held r

unfoldable pub log : Format → (List Attr → Record → String) → Handler → Record → Option String
unfolding enabled
log f json_line h r = if enabled h r.level then some (written_by f json_line h r) else none

-- Keys of a context are compared with their types: one of type string, and one of the type that
-- `ToContext` declares.
pub data ContextKey : Type 0 where
  string_key : String → ContextKey
  own_key : String → ContextKey

abbrev same_key : ContextKey → ContextKey → Bool
same_key (string_key a) (string_key b) = a == b
same_key (own_key a) (own_key b) = a == b
same_key (string_key a) (own_key b) = false
same_key (own_key a) (string_key b) = false

-- The loggers of a context, the latest first.
abbrev pub Context : Type 0
Context = List (ContextKey × Handler)

unfoldable pub context_value : ContextKey → Context → Option Handler
context_value key [] = none
context_value key ((at, held) ∷ rest) =
    if same_key at key then some held else context_value key rest

abbrev or_default : Option Handler → Handler → Handler
or_default none default_logger = default_logger
or_default (some logger) default_logger = logger

unfoldable pub from_context : Context → Handler → Handler
unfolding context_value
from_context ctx default_logger =
    or_default (context_value (string_key "logger") ctx) default_logger

unfoldable pub to_context : Context → Handler → Context
to_context ctx logger = (own_key "logger", logger) ∷ ctx
