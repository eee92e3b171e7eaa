-- ===== src/Tooling/Tests.antt =====
-- The tooling server at concrete addresses and prefixes.
use go_grpcbridge.Base.{◌≡◌, refl, true, false, none, some, List, [], ◌∷◌, Text, codes, eq_text}
use go_grpcbridge.Proxy.{Parsers}
use go_grpcbridge.Tooling.{
  ToolingConfig, get_tooling_config_error, get_tooling_listen_address_error, grpc_h2c, Result,
  panics, gives, build_tooling_handler, ToolingServer, listen_and_serve_tooling, wildcard_refused,
  health_service,
}
use go_grpcbridge.Tooling.Laws.{IsExposed, listen_and_serve_tooling-IsExposed}

abbrev parsers : Parsers
parsers = record { parse_url = λ s. none; is_localhost = λ s. true; parse_ip = λ s. none }

abbrev health_only : ToolingConfig
health_only = record {
  should_enable_reflection = false;
  should_enable_health_service = true;
  should_enable_pprof = false;
  debug_path_prefix = [];
}

abbrev served : ToolingServer
served = record {
  warned = false;
  handler = record {
    routes = (codes "/", grpc_h2c) ∷ [];
    services = health_service ∷ [];
    new_health_server = true;
  };
}

serves :
    listen_and_serve_tooling eq_text [] parsers (codes ":8081") (some []) health_only ≡ gives served
unfolding listen_and_serve_tooling build_tooling_handler get_tooling_listen_address_error
    get_tooling_config_error eq_text go_grpcbridge.ApiGuard.has_symbol
serves = refl

listen_and_serve_tooling-IsExposed_example : IsExposed (codes ":8081") health_only [] served
listen_and_serve_tooling-IsExposed_example =
    listen_and_serve_tooling-IsExposed eq_text [] parsers (codes ":8081") [] health_only served
      serves

abbrev root_pprof : ToolingConfig
root_pprof = record health_only { should_enable_pprof = true; debug_path_prefix = codes "/" }

-- The validation accepts the prefix "/", whose index is then registered twice.
root_prefix_panics :
    (get_tooling_config_error root_pprof ≡ none)
    × (build_tooling_handler eq_text [] (some []) root_pprof ≡ panics)
unfolding build_tooling_handler get_tooling_config_error eq_text go_grpcbridge.Base.has_prefix
    go_grpcbridge.Base.has_suffix go_grpcbridge.Base.trim_suffix
root_prefix_panics = (refl, refl)

-- Of two spellings of the IPv6 wildcard only one is refused.
wildcard_spellings :
    (get_tooling_listen_address_error (codes "[::]:80") root_pprof ≡ some wildcard_refused)
    × (get_tooling_listen_address_error (codes "[0::]:80") root_pprof ≡ none)
unfolding get_tooling_listen_address_error eq_text
    go_grpcbridge.Tooling.should_warn_tooling_wildcard_bind go_grpcbridge.Base.trim_space
    go_grpcbridge.Base.has_prefix go_grpcbridge.Net.split_host_port
wildcard_spellings = (refl, refl)
