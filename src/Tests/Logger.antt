-- ===== src/Tests/Logger.antt =====
-- Instances of the theorems on shared/logger and on the loading of shared/config.go, and runs.
use re_master.Prelude.{◌≡◌, ◌↔◌, refl, String, true, [], ◌∷◌}
use mathlib.Core.List.{reverse, reverse_perm}
use mathlib.Core.List.Perm
use re_master.Prelude.Int.{pos}
use re_master.Prelude.Maps.{Map}
use re_master.Errors.Types.{plain}
use re_master.Exec.{Result, ok, err}
use re_master.Config.{Config}
use re_master.Config.Laws.{IsSound}
use re_master.Config.Loading.{Viper, load_config}
use re_master.Config.Loading.Laws.{Readable, load_config_iff}
use re_master.Logger.Pretty.{Record, Attr, Format, handle}
use re_master.Logger.Pretty.Laws.{handle-range}
use re_master.Samples.Servers.{service_config}

abbrev attr : String → String → Attr
attr key value = record { key = key; text = value; shown = value }

abbrev line : Record
line = record {
  time = "2025/01/02 03:04:05";
  level = pos 4;
  level_text = "WARN";
  message = "slow query";
  attrs =
      attr "service" "auth"
      ∷ attr "table" "users"
      ∷ attr "level" "9"
      ∷ attr "milliseconds" "250"
      ∷ [];
}

abbrev colourless : (Map String → Map String) → Format
colourless order = record { paint = λ c s. s; range = order }

abbrev as_inserted : Format
as_inserted = colourless (λ m. m)

abbrev backwards : Format
backwards = colourless reverse

written :
    handle backwards line
    ≡ "2025/01/02 03:04:05 WARN  [svc:auth] slow query\n    milliseconds: 250\n    table       : users"
unfolding handle
written = refl

handle-range_example : handle as_inserted line ≡ handle backwards line
handle-range_example =
    handle-range as_inserted backwards line refl (λ m. Perm.refl m) (λ m. reverse_perm m)

-- No file, and settings that decode to the configuration of the samples.
abbrev viper : Viper (Unit {0})
viper = record {
  add_config_path = λ path w. w;
  set_config_name = λ name w. w;
  set_config_type = λ type w. w;
  set_env_key_replacer = λ pairs w. w;
  automatic_env = λ w. w;
  set_env_prefix = λ prefix w. w;
  set_default = λ key value w. w;
  bind_env = λ key env w. w;
  read_in_config = λ w. (err (plain "Config File not found"), w);
  is_not_found = λ e. true;
  unmarshal = λ w. (ok service_config, w);
}

load_config_iff_example : ((load_config viper tt).0 ≡ ok service_config) ↔ (
    Readable viper (err (plain "Config File not found"))
    × (◌≡◌ {A = Result Config} (ok service_config) (ok service_config))
    × IsSound service_config)
load_config_iff_example = load_config_iff viper tt service_config
