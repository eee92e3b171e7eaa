-- ===== src/Client/Laws.antt =====
-- When a client gives up before it dials, and what it dials with.
use go_grpcbridge.Base.{
  ◌≡◌, ◌≢◌, ◌||◌, trim_space, ◌++◌, refl, Option, none, some, List, [], ◌∷◌, ◌⊎◌, inl, inr, Text,
  arith, Option-cases, ⊎-cases,
}
use go_grpcbridge.Target.{UrlParser, TargetUrl, build_tunnel_grpc_dial_target}
use go_grpcbridge.Target.Forms.{Normalizes}
use go_grpcbridge.Target.Laws.{Dialable, parse_tunnel_target_url_iff}
use go_grpcbridge.Policy.{
  ReconnectConfig, KeepaliveConfig, PolicyError, get_reconnect_config_error,
  get_keepalive_config_error, Backoff, Dialer, DialOption, context_dialer, policy_options,
}
use go_grpcbridge.Policy.Laws.{reconnect_options, keepalive_options, policy_options-accepted}
use go_grpcbridge.Client.{
  is_some, TunnelConfig, TunnelError, target_error, DialCall, policy_check,
  get_tunnel_config_error_without_target, build_tunnel_target_url, get_tunnel_config_error,
  build_tunnel_dialer, dial_call, build_tunnel_conn, optional_error,
}
use go_grpcbridge.Client.Browser.{get_browser_config_error_without_target}

-- The error of a call that gives up before it dials.
abbrev pub error_of : TunnelError ⊎ DialCall → Option TunnelError
error_of (inl e) = some e
error_of (inr call) = none

policy_check-none :
    {A : Type 0} (validate : A → Option PolicyError) (cfg : Option A)
    → policy_check validate cfg ≡ none
    → optional_error validate cfg ≡ none
policy_check-none validate none h = refl
policy_check-none validate (some cfg) h = ground arith

-- What passes the checks on the policies is built with the options of the policies.
checked-policies :
    (defaults : Backoff) (r : Option ReconnectConfig) (k : Option KeepaliveConfig)
    → policy_check get_reconnect_config_error r ≡ none
    → policy_check get_keepalive_config_error k ≡ none
    → policy_options defaults r k ≡ inr (reconnect_options defaults r ++ keepalive_options k)
checked-policies defaults r k hr hk =
    policy_options-accepted defaults r k (policy_check-none get_reconnect_config_error r hr)
      (policy_check-none get_keepalive_config_error k hk)

-- The options of every dialed connection: the policies', the caller's, and the dialer last.
abbrev pub dial_options : Backoff → TunnelConfig → DialOption → List DialOption
dial_options defaults cfg dialer =
    (reconnect_options defaults cfg.reconnect_config ++ keepalive_options cfg.keepalive_config)
    ++ (cfg.grpc_options ++ dialer ∷ [])

native_checks :
    (cfg : TunnelConfig)
    → get_tunnel_config_error_without_target cfg ≡ none
    → (policy_check get_reconnect_config_error cfg.reconnect_config ≡ none)
      × (policy_check get_keepalive_config_error cfg.keepalive_config ≡ none)
unfolding get_tunnel_config_error_without_target
native_checks cfg h = ground arith

native_policies :
    (defaults : Backoff) (cfg : TunnelConfig)
    → get_tunnel_config_error_without_target cfg ≡ none
    → policy_options defaults cfg.reconnect_config cfg.keepalive_config
      ≡ inr (
          reconnect_options defaults cfg.reconnect_config ++ keepalive_options cfg.keepalive_config)
native_policies defaults cfg h =
    let (hr, hk) = native_checks cfg h in checked-policies defaults _ _ hr hk

browser_checks :
    (cfg : TunnelConfig)
    → get_browser_config_error_without_target cfg ≡ none
    → (policy_check get_reconnect_config_error cfg.reconnect_config ≡ none)
      × (policy_check get_keepalive_config_error cfg.keepalive_config ≡ none)
unfolding get_browser_config_error_without_target
browser_checks cfg h = ground arith

native-outcome :
    (parse : UrlParser) (defaults : Backoff) (cfg : TunnelConfig)
    → (get_tunnel_config_error_without_target cfg ≡ none)
    → (url : Text) → build_tunnel_target_url parse cfg ≡ inr url
    → build_tunnel_conn parse defaults cfg
      ≡ inr (record {
        dial_target = build_tunnel_grpc_dial_target parse cfg.target url;
        options = dial_options defaults cfg (context_dialer (build_tunnel_dialer parse cfg url));
      })
unfolding build_tunnel_conn dial_call
native-outcome parse defaults cfg ok url e = ground (arith, ok, e, native_policies defaults cfg ok)

-- The dialer of a tunnel URL: it dials what url.Parse reads of it with the settings of the
-- configuration, or returns the error of url.Parse.
pub data Dials (parse : UrlParser) (cfg : TunnelConfig) (url : Text) : Option Dialer → Type 0 where
  unreadable : parse url ≡ none → Dials parse cfg url none
  reads :
      (u : TargetUrl) (dialer : Dialer)
      → parse url ≡ some u
      → dialer.url ≡ u.text
      → dialer.tls_config ≡ cfg.tls_config
      → dialer.headers ≡ cfg.headers
      → dialer.subprotocols ≡ cfg.subprotocols
      → dialer.proxy ≡ cfg.proxy
      → dialer.handshake_timeout ≡ cfg.handshake_timeout
      → dialer.should_enable_compression ≡ cfg.should_enable_compression
      → Dials parse cfg url (some dialer)

build_tunnel_dialer-Dials :
    (parse : UrlParser) (cfg : TunnelConfig) (url : Text)
    → Dials parse cfg url (build_tunnel_dialer parse cfg url)
unfolding build_tunnel_dialer
build_tunnel_dialer-Dials parse cfg url = elim (Option-cases (parse url)) [
  | inl bad ↦ rw (bad, build_tunnel_dialer) (unreadable bad)
  | inr (u, read) ↦
      rw (read, build_tunnel_dialer) (reads u _ read refl refl refl refl refl refl refl)
]

-- The tunnel URL that the target of a configuration stands for.
abbrev pub IsTunnelUrl : UrlParser → TunnelConfig → Text → Type 0
IsTunnelUrl parse cfg text =
    (trim_space cfg.target ≢ [])
    × ((url : Text) × Normalizes (cfg.should_use_tls || is_some cfg.tls_config)
          (trim_space cfg.target) url
        × Dialable parse url text)

target-IsTunnelUrl :
    (parse : UrlParser) (cfg : TunnelConfig) (text : Text)
    → build_tunnel_target_url parse cfg ≡ inr text
    → IsTunnelUrl parse cfg text
unfolding build_tunnel_target_url
target-IsTunnelUrl parse cfg text h =
    (parse_tunnel_target_url_iff parse cfg.target (cfg.should_use_tls || is_some cfg.tls_config)
        text).0
      h

-- BuildTunnelConn dials exactly when GetTunnelConfigError reports nothing, and gives up with the
-- same error otherwise. What it dials with is built in this order: the reconnect policy, the
-- keepalive policy, the options of the caller, and a dialer that dials what url.Parse reads of the
-- tunnel URL that the target stands for, with the settings of the configuration, or that returns
-- url.Parse's error.
pub build_tunnel_conn-cases :
    (parse : UrlParser) (defaults : Backoff) (cfg : TunnelConfig)
    → ((e : TunnelError) × ((get_tunnel_config_error parse cfg ≡ some e)
          × (build_tunnel_conn parse defaults cfg ≡ inl e)))
      ⊎ ((url : Text) × ((dialer : Option Dialer) × ((get_tunnel_config_error parse cfg ≡ none)
              × IsTunnelUrl parse cfg url
              × Dials parse cfg url dialer
              × (build_tunnel_conn parse defaults cfg
                  ≡ inr (record {
                    dial_target = build_tunnel_grpc_dial_target parse cfg.target url;
                    options = dial_options defaults cfg (context_dialer dialer);
                  })))))
unfolding get_tunnel_config_error build_tunnel_conn
build_tunnel_conn-cases parse defaults cfg =
    elim (Option-cases (get_tunnel_config_error_without_target cfg)) [
      | inr (e, bad) ↦ inl (e, (rw bad refl, ground (arith, bad)))
      | inl ok ↦ elim (⊎-cases (build_tunnel_target_url parse cfg)) [
        | inl (e, bad) ↦ inl (target_error e, (rw (ok, bad) refl, ground (arith, ok, bad)))
        | inr (url, e) ↦ inr (
          url,
          (
            build_tunnel_dialer parse cfg url,
            (
              rw (ok, e) refl,
              target-IsTunnelUrl parse cfg url e,
              build_tunnel_dialer-Dials parse cfg url,
              native-outcome parse defaults cfg ok url e,
            ),
          ),
        )
      ]
    ]
