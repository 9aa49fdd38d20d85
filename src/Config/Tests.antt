-- ===== src/Config/Tests.antt =====
-- The settings of environments with nothing and with little in them.
use node_ddd_boilerplate_typ.Base.{Option, String, if◌then◌else◌, none, refl, some, ℕ, ◌==◌, ◌≡◌}
use node_ddd_boilerplate_typ.Config.Envs.{Env, application_configs, cache_configs, configs}
use node_ddd_boilerplate_typ.Config.Laws.{configs-variables}

abbrev nothing : Env
nothing name = none

abbrev parse_int : String → Option ℕ
parse_int text = if text == "3000" then some 3000 else if text == "8000" then some 8000 else none

-- Only the home directory is set, of which the settings know nothing.
abbrev home : Env
home name = if name == "HOME" then some "/root" else none

-- A port that is set to the empty text is not the default one.
abbrev empty_port : Env
empty_port name = if name == "APP_PORT" then some "" else none

configs-variables_example : configs parse_int nothing ≡ configs parse_int home
configs-variables_example = configs-variables parse_int nothing home refl

default_ports :
    ((configs parse_int nothing).application.app_port ≡ some 3000)
    × ((configs parse_int empty_port).application.app_port ≡ none)
unfolding configs application_configs
default_ports = (refl, refl)

expirations :
    ((configs parse_int nothing).caching.subscriptions_expiration ≡ 43200)
    × ((configs parse_int nothing).caching.hooks_expiration ≡ 86400)
unfolding configs cache_configs
expirations = (refl, refl)
