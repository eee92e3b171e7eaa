-- ===== src/ServerOptions.antt =====
-- pkg/grpctunnel/server.go: the functional options, buildServerOptions, buildBridgeConfig and Wrap. An
-- option is a constructor in place of the closure it returns.
pub mod Laws
pub mod Tests
use go_grpcbridge.Base.{
  ℕ, ◌≡◌, Bool, true, false, Option, none, some, List, [], ◌∷◌, ◌⊎◌, inl, inr, ℤ, pos, Text, ◌*◌,
}
use go_grpcbridge.Clock.{Duration, second}
use go_grpcbridge.Net.{Request}
use go_grpcbridge.Config.{BridgeConfig, default_web_socket_buffer_size}
use go_grpcbridge.Origin.{build_origin_allowlist_check}
use go_grpcbridge.Handler.{HandlerError, Built, build_bridge_handler}

-- serverOptions.
pub record ServerOptions : Type 0 where
  pub check_origin : Option (Option Request → Bool)
  pub authorize : Option (Request → Bool)
  pub read_buffer_size : ℤ
  pub write_buffer_size : ℤ
  pub read_limit_bytes : ℤ
  pub should_disable_read_limit : Bool
  pub ping_interval : Duration
  pub idle_timeout : Duration
  pub session_max_lifetime : Duration
  pub should_disable_keepalive : Bool
  pub should_use_native_transport : Bool
  pub on_connect : Bool
  pub on_disconnect : Bool
  pub should_enable_compression : Bool
  pub max_active_connections : ℤ
  pub max_connections_per_client : ℤ
  pub max_upgrades_per_client : ℤ

-- The With… functions.
pub data ServerOption : Type 0 where
  with_origin_check : Option (Option Request → Bool) → ServerOption
  with_allowed_origins : (ℕ → ℕ) → List Text → ServerOption
  with_authorize : Option (Request → Bool) → ServerOption
  with_buffer_sizes : ℤ → ℤ → ServerOption
  with_read_limit_bytes : ℤ → ServerOption
  with_read_limit_disabled : ServerOption
  with_keepalive : Duration → Duration → ServerOption
  with_keepalive_disabled : ServerOption
  with_session_max_lifetime : Duration → ServerOption
  with_native_grpc_transport : ServerOption
  with_bridge_web_socket_compression : ServerOption
  with_max_active_connections : ℤ → ServerOption
  with_max_connections_per_client : ℤ → ServerOption
  with_max_upgrades_per_client_per_minute : ℤ → ServerOption
  with_connect_hook : Bool → ServerOption
  with_disconnect_hook : Bool → ServerOption

pub apply_option : ServerOption → ServerOptions → ServerOptions
apply_option (with_origin_check check) o = record o { check_origin = check }
apply_option (with_allowed_origins to_lower origins) o = record o {
  check_origin = some (build_origin_allowlist_check to_lower origins);
}
apply_option (with_authorize hook) o = record o { authorize = hook }
apply_option (with_buffer_sizes read write) o = record o {
  read_buffer_size = read;
  write_buffer_size = write;
}
apply_option (with_read_limit_bytes limit) o = record o { read_limit_bytes = limit }
apply_option with_read_limit_disabled o = record o { should_disable_read_limit = true }
apply_option (with_keepalive ping idle) o = record o { ping_interval = ping; idle_timeout = idle }
apply_option with_keepalive_disabled o = record o { should_disable_keepalive = true }
apply_option (with_session_max_lifetime lifetime) o = record o { session_max_lifetime = lifetime }
apply_option with_native_grpc_transport o = record o { should_use_native_transport = true }
apply_option with_bridge_web_socket_compression o = record o { should_enable_compression = true }
apply_option (with_max_active_connections n) o = record o { max_active_connections = n }
apply_option (with_max_connections_per_client n) o = record o { max_connections_per_client = n }
apply_option (with_max_upgrades_per_client_per_minute n) o = record o {
  max_upgrades_per_client = n;
}
apply_option (with_connect_hook hook) o = record o { on_connect = hook }
apply_option (with_disconnect_hook hook) o = record o { on_disconnect = hook }

pub default_options : ServerOptions
default_options = record {
  check_origin = none;
  authorize = none;
  read_buffer_size = default_web_socket_buffer_size;
  write_buffer_size = default_web_socket_buffer_size;
  read_limit_bytes = pos 0;
  should_disable_read_limit = false;
  ping_interval = pos 0;
  idle_timeout = pos 0;
  session_max_lifetime = pos 0;
  should_disable_keepalive = false;
  should_use_native_transport = false;
  on_connect = false;
  on_disconnect = false;
  should_enable_compression = false;
  max_active_connections = pos 0;
  max_connections_per_client = pos 0;
  max_upgrades_per_client = pos 0;
}

pub apply_options : ServerOptions → List ServerOption → ServerOptions
apply_options o [] = o
apply_options o (opt ∷ opts) = apply_options (apply_option opt o) opts

-- buildServerOptions.
pub build_server_options : List ServerOption → ServerOptions
unfolding default_options
build_server_options opts = apply_options default_options opts

-- buildBridgeConfig.
pub build_bridge_config : ServerOptions → BridgeConfig
build_bridge_config o = record {
  check_origin = o.check_origin;
  authorize = o.authorize;
  read_buffer_size = o.read_buffer_size;
  write_buffer_size = o.write_buffer_size;
  read_limit_bytes = o.read_limit_bytes;
  should_disable_read_limit = o.should_disable_read_limit;
  ping_interval = o.ping_interval;
  idle_timeout = o.idle_timeout;
  should_disable_keepalive = o.should_disable_keepalive;
  session_max_lifetime = o.session_max_lifetime;
  should_use_native_grpc_transport = o.should_use_native_transport;
  should_enable_compression = o.should_enable_compression;
  max_active_connections = o.max_active_connections;
  max_connections_per_client = o.max_connections_per_client;
  max_upgrades_per_client_per_minute = o.max_upgrades_per_client;
  on_connect = o.on_connect;
  on_disconnect = o.on_disconnect;
}

pub data Wrapped : Type 0 where
  serves : Built → Wrapped
  answers_internal_error : HandlerError → Wrapped

-- Wrap: a configuration that is refused gives a handler that answers 500.
pub wrap : Bool → List ServerOption → Wrapped
wrap has_server opts =
    elim (build_bridge_handler has_server (build_bridge_config (build_server_options opts))) [
      | inl e ↦ answers_internal_error e
      | inr built ↦ serves built
    ]

-- The http.Server that NewServer builds.
pub record HttpServer : Type 0 where
  pub addr : Text
  pub handler : Wrapped
  pub read_timeout : Duration
  pub write_timeout : Duration
  pub idle_timeout : Duration

-- NewServer.
pub new_server : Text → Bool → List ServerOption → HttpServer
unfolding wrap
new_server addr has_server opts = record {
  addr = addr;
  handler = wrap has_server opts;
  read_timeout = pos (15 * second);
  write_timeout = pos (15 * second);
  idle_timeout = pos (60 * second);
}

-- Serve, ListenAndServe and ListenAndServeTLS; the methods of http.Server are arguments.
module _ {Err : Type 0} where
  pub serve :
      {Listening : Type 0}
      → (HttpServer → Listening → Option Err)
      → Listening
      → Bool
      → List ServerOption
      → Option Err
  unfolding new_server
  serve run listener has_server opts = run (new_server [] has_server opts) listener

  pub listen_and_serve : (HttpServer → Option Err) → Text → Bool → List ServerOption → Option Err
  unfolding new_server
  listen_and_serve run addr has_server opts = run (new_server addr has_server opts)

  pub listen_and_serve_tls :
      (HttpServer → Text → Text → Option Err)
      → Text
      → Text
      → Text
      → Bool
      → List ServerOption
      → Option Err
  unfolding new_server
  listen_and_serve_tls run addr cert_file key_file has_server opts =
      run (new_server addr has_server opts) cert_file key_file
