-- ===== src/Logger/Laws.antt =====
-- What loggers forget, and what contexts do not give back.
use re_master.Prelude.{◌≡◌, refl, String, false, none, some, List, [], ◌∷◌, ◌==◌, if◌then◌else◌}
use re_master.Logger.Pretty.{Record, Attr, Format, handle}
use re_master.Logger.{
  LogConfig, Handler, level_of, with_attrs, new, with_service, with_correlation_id, with_request_id,
  enabled, int_le, log, Context, from_context, to_context,
}

-- A logger for the pretty format writes every record, whatever its level and the configured one, and
-- writes of it the same as before after a service, a correlation id or a request id was given to it:
-- these, and the attribute of the application, are in no record.
pretty_forgets :
    (cfg : LogConfig) (f : Format) (json_line : List Attr → Record → String) (r : Record)
    (name id request : String)
    → cfg.format ≡ "pretty"
    → let logger = new cfg in
      (log f json_line logger r ≡ some (handle f r))
      × (log f json_line (with_service logger name) r ≡ log f json_line logger r)
      × (log f json_line (with_correlation_id logger id) r ≡ log f json_line logger r)
      × (log f json_line (with_request_id logger request) r ≡ log f json_line logger r)
unfolding new with_service with_correlation_id with_request_id log enabled with_attrs
pretty_forgets cfg f json_line r name id request chosen = rw chosen (refl, refl, refl, refl)

-- The context after calls of `ToContext` with these loggers.
abbrev with_loggers : List Handler → Context → Context
with_loggers [] ctx = ctx
with_loggers (logger ∷ rest) ctx = to_context (with_loggers rest ctx) logger

-- Loggers that were put into a context are not found in it: after any number of calls of `ToContext`,
-- `FromContext` answers as it would without them; from the empty context, with the default logger.
from_context-to_context :
    (loggers : List Handler) (ctx : Context) (default_logger : Handler)
    → (from_context (with_loggers loggers ctx) default_logger ≡ from_context ctx default_logger)
      × (from_context (with_loggers loggers []) default_logger ≡ default_logger)
unfolding from_context to_context
from_context-to_context [] ctx default_logger = (refl, refl)
from_context-to_context (logger ∷ rest) ctx default_logger =
    from_context-to_context rest ctx default_logger

-- A logger of the JSON format keeps what it was given, and writes a record exactly if its level is at
-- least the configured one.
json_keeps :
    (cfg : LogConfig) (f : Format) (json_line : List Attr → Record → String) (r : Record)
    (id : String)
    → (cfg.format == "pretty") ≡ false
    → log f json_line (with_correlation_id (new cfg) id) r ≡ (
        if int_le (level_of cfg.level) r.level
        then some (
            json_line
              (record { key = "app"; text = "remaster"; shown = "remaster" }
                ∷ record { key = "correlation_id"; text = id; shown = id }
                ∷ [])
              r)
        else none)
unfolding new with_correlation_id log enabled with_attrs
json_keeps cfg f json_line r id chosen = rw chosen refl
