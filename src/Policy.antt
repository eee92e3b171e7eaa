-- ===== src/Policy.antt =====
-- pkg/grpctunnel/api.go: ReconnectConfig and KeepaliveConfig, their validation, and the options of gRPC
-- that they become. A float64 is NaN, an infinity or mantissa * 2 ^ exponent; gRPC's default backoff is an argument.
pub mod Laws
use go_grpcbridge.Base.{
  ℕ, zero, suc, negsuc, ◌*◌, ◌++◌, Bool, true, false, ◌||◌, Option, none, some, List, [], ◌∷◌, ◌⊎◌,
  inl, inr, if◌then◌else◌, ltb, ℤ, pos, is_negative, is_positive, Text, Dict,
}
use go_grpcbridge.Clock.{Duration, second}
use go_grpcbridge.Config.{reject, ◌>>◌}

pub data Float : Type 0 where
  nan : Float
  -- The flag says whether the infinity is negative.
  infinity : Bool → Float
  finite : (mantissa exponent : ℤ) → Float

-- x < 0, x > 0, and math.IsNaN(x) || math.IsInf(x, 0).
pub float_negative : Float → Bool
float_negative nan = false
float_negative (infinity negative) = negative
float_negative (finite m e) = is_negative m

pub float_positive : Float → Bool
float_positive nan = false
float_positive (infinity negative) = if negative then false else true
float_positive (finite m e) = is_positive m

pub not_finite : Float → Bool
not_finite nan = true
not_finite (infinity negative) = true
not_finite (finite m e) = false

pub record ReconnectConfig : Type 0 where
  pub initial_delay : Duration
  pub max_delay : Duration
  pub multiplier : Float
  pub jitter : Float
  pub min_connect_timeout : Duration

pub record KeepaliveConfig : Type 0 where
  pub interval : Duration
  pub timeout : Duration

pub data PolicyError : Type 0 where
  initial_delay_negative max_delay_negative min_connect_timeout_negative : PolicyError
  multiplier_negative multiplier_not_finite jitter_negative jitter_not_finite : PolicyError
  interval_negative timeout_negative : PolicyError

-- GetReconnectConfigError.
pub get_reconnect_config_error : ReconnectConfig → Option PolicyError
unfolding float_negative not_finite
get_reconnect_config_error cfg = do
  reject (is_negative cfg.initial_delay) initial_delay_negative
  reject (is_negative cfg.max_delay) max_delay_negative
  reject (is_negative cfg.min_connect_timeout) min_connect_timeout_negative
  reject (float_negative cfg.multiplier) multiplier_negative
  reject (not_finite cfg.multiplier) multiplier_not_finite
  reject (float_negative cfg.jitter) jitter_negative
  reject (not_finite cfg.jitter) jitter_not_finite

-- GetKeepaliveConfigError.
pub get_keepalive_config_error : KeepaliveConfig → Option PolicyError
get_keepalive_config_error cfg = do
  reject (is_negative cfg.interval) interval_negative
  reject (is_negative cfg.timeout) timeout_negative

-- backoff.Config and grpc.ConnectParams.
pub record Backoff : Type 0 where
  pub base_delay : Duration
  pub multiplier : Float
  pub jitter : Float
  pub max_delay : Duration

pub record ConnectParams : Type 0 where
  pub backoff : Backoff
  pub min_connect_timeout : Duration

-- keepalive.ClientParameters.
pub record KeepaliveParams : Type 0 where
  pub time : Duration
  pub timeout : Duration
  pub permit_without_stream : Bool

abbrev pub or_default : Duration → Duration → Duration
or_default (pos zero) d = d
or_default (pos (suc n)) d = pos (suc n)
or_default (negsuc n) d = negsuc n

abbrev pub if_positive : Duration → Duration → Duration
if_positive d x = if is_positive d then d else x

-- The connection parameters of a reconnect policy.
pub build_connect_params : Backoff → ReconnectConfig → ConnectParams
unfolding float_positive
build_connect_params defaults cfg = record {
  backoff = record {
    base_delay = if_positive cfg.initial_delay defaults.base_delay;
    multiplier = if float_positive cfg.multiplier then cfg.multiplier else defaults.multiplier;
    jitter = if float_positive cfg.jitter then cfg.jitter else defaults.jitter;
    max_delay = if_positive cfg.max_delay defaults.max_delay;
  };
  min_connect_timeout = if_positive cfg.min_connect_timeout (pos 0);
}

-- The keepalive parameters of a keepalive policy.
pub build_keepalive_params : KeepaliveConfig → KeepaliveParams
build_keepalive_params cfg = record {
  time = or_default cfg.interval (pos (30 * second));
  timeout = or_default cfg.timeout (pos (20 * second));
  permit_without_stream = true;
}

-- A websocket dialer: the settings of buildTunnelDialer, or those of the dialer of a browser.
pub record Dialer : Type 0 where
  pub url : Text
  pub tls_config : Option ℕ
  pub headers : Option (Dict (List Text))
  pub subprotocols : List Text
  pub proxy : Option ℕ
  pub handshake_timeout : Duration
  pub should_enable_compression : Bool

-- grpc.DialOption: an option of the caller, known by a number, or one that the package builds. The
-- dialer is none where it only returns the error of url.Parse.
pub data DialOption : Type 0 where
  caller_option : ℕ → DialOption
  insecure_credentials : DialOption
  connect_params : ConnectParams → DialOption
  keepalive_params : KeepaliveParams → DialOption
  context_dialer : Option Dialer → DialOption
  browser_dialer : Text → List Text → DialOption

abbrev pub or_error {ℓ} : {A : Type ℓ} → Option PolicyError → A → PolicyError ⊎ A
or_error (some e) a = inl e
or_error none a = inr a

-- ApplyTunnelInsecureCredentials.
pub apply_tunnel_insecure_credentials : List DialOption → List DialOption
apply_tunnel_insecure_credentials options = options ++ insecure_credentials ∷ []

-- ApplyTunnelReconnectPolicy.
pub apply_tunnel_reconnect_policy :
    Backoff → List DialOption → ReconnectConfig → PolicyError ⊎ List DialOption
unfolding build_connect_params
apply_tunnel_reconnect_policy defaults options cfg =
    or_error (get_reconnect_config_error cfg)
      (options ++ connect_params (build_connect_params defaults cfg) ∷ [])

-- ApplyTunnelKeepalivePolicy.
pub apply_tunnel_keepalive_policy :
    List DialOption → KeepaliveConfig → PolicyError ⊎ List DialOption
unfolding build_keepalive_params
apply_tunnel_keepalive_policy options cfg =
    or_error (get_keepalive_config_error cfg)
      (options ++ keepalive_params (build_keepalive_params cfg) ∷ [])

abbrev pub optional_error {ℓ} :
    {A : Type ℓ} → (A → Option PolicyError) → Option A → Option PolicyError
optional_error validate none = none
optional_error validate (some cfg) = validate cfg

-- `if cfg != nil { options, err := apply(nil, *cfg); … }`.
pub optional_options {ℓ} :
    {A : Type ℓ} → (A → PolicyError ⊎ List DialOption) → Option A → PolicyError ⊎ List DialOption
optional_options apply none = inr []
optional_options apply (some cfg) = apply cfg

-- The options of the two policies, which BuildTunnelConn puts before those of the caller.
pub policy_options :
    Backoff → Option ReconnectConfig → Option KeepaliveConfig → PolicyError ⊎ List DialOption
unfolding optional_options apply_tunnel_reconnect_policy apply_tunnel_keepalive_policy
policy_options defaults reconnect keepalive =
    elim (optional_options (apply_tunnel_reconnect_policy defaults []) reconnect) [
      | inl e ↦ inl e
      | inr first ↦ elim (optional_options (apply_tunnel_keepalive_policy []) keepalive) [
        | inl e ↦ inl e
        | inr second_options ↦ inr (first ++ second_options)
      ]
    ]
