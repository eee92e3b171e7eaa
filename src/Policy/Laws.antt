-- ===== src/Policy/Laws.antt =====
-- What the policies of a client accept, and what gRPC is given for them.
use go_grpcbridge.Base.{
  ◌≡◌, ◌++◌, refl, true, false, none, some, List, [], ◌∷◌, ◌⊎◌, inl, inr, ℤ, pos, negsuc, ◌≤ℤ◌,
  ◌<ℤ◌, arith, if◌then◌else◌, Bool-cases, Option-cases, is_positive, Option,
}
use go_grpcbridge.Clock.{Duration}
use go_grpcbridge.Policy.{
  Float, nan, infinity, finite, float_negative, float_positive, not_finite, ReconnectConfig,
  get_reconnect_config_error, Backoff, build_connect_params, DialOption, connect_params,
  apply_tunnel_reconnect_policy, PolicyError, policy_options, apply_tunnel_keepalive_policy,
  KeepaliveConfig, optional_error, keepalive_params, get_keepalive_config_error,
  build_keepalive_params, optional_options,
}

-- A float64 that is finite and not negative, and one that is finite and positive.
abbrev pub IsAmount : Float → Type 0
IsAmount x = (m : ℤ) × ((e : ℤ) × ((x ≡ finite m e) × (pos 0 ≤ℤ m)))

abbrev pub IsFactor : Float → Type 0
IsFactor x = (m : ℤ) × ((e : ℤ) × ((x ≡ finite m e) × (pos 0 <ℤ m)))

float-IsAmount : (x : Float) → float_negative x ≡ false → not_finite x ≡ false → IsAmount x
unfolding float_negative not_finite
float-IsAmount nan n f = ground arith
float-IsAmount (infinity b) n f = ground arith
float-IsAmount (finite m e) n f = (m, (e, (refl, ground arith)))

IsAmount-float : (x : Float) → IsAmount x → (float_negative x ≡ false) × (not_finite x ≡ false)
unfolding float_negative not_finite
IsAmount-float x (m, (e, (spelled, sign))) = ground arith

is_positive-above : (m : ℤ) → is_positive m ≡ true → pos 0 <ℤ m
is_positive-above (pos n) h = ground arith
is_positive-above (negsuc n) h = ground arith

chosen-IsFactor :
    (x default : Float)
    → IsAmount x
    → IsFactor default
    → IsFactor (if float_positive x then x else default)
unfolding float_positive
chosen-IsFactor x default (m, (e, (spelled, sign))) other = elim (Bool-cases (is_positive m)) [
  | inl h ↦ rw (spelled, h) (m, (e, (refl, is_positive-above m h)))
  | inr h ↦ rw (spelled, h) other
]

chosen-IsAmount :
    (x default : Float)
    → IsAmount x
    → IsAmount default
    → IsAmount (if float_positive x then x else default)
chosen-IsAmount x default own other = elim (Bool-cases (float_positive x)) [
  | inl h ↦ rw h own
  | inr h ↦ rw h other
]

-- The documented rules: no duration is negative, and the factors are finite and not negative.
pub record IsValid (cfg : ReconnectConfig) : Type 0 where
  pub initial_delay : pos 0 ≤ℤ cfg.initial_delay
  pub max_delay : pos 0 ≤ℤ cfg.max_delay
  pub min_connect_timeout : pos 0 ≤ℤ cfg.min_connect_timeout
  pub multiplier : IsAmount cfg.multiplier
  pub jitter : IsAmount cfg.jitter

-- A backoff that gRPC can run: it waits, and for a finite time.
pub record IsSound (b : Backoff) : Type 0 where
  pub base_delay : pos 0 <ℤ b.base_delay
  pub max_delay : pos 0 <ℤ b.max_delay
  pub multiplier : IsFactor b.multiplier
  pub jitter : IsAmount b.jitter

accepted_checks :
    (cfg : ReconnectConfig)
    → get_reconnect_config_error cfg ≡ none
    → (pos 0 ≤ℤ cfg.initial_delay)
      × (pos 0 ≤ℤ cfg.max_delay)
      × (pos 0 ≤ℤ cfg.min_connect_timeout)
      × (float_negative cfg.multiplier ≡ false)
      × (not_finite cfg.multiplier ≡ false)
      × (float_negative cfg.jitter ≡ false)
      × (not_finite cfg.jitter ≡ false)
unfolding get_reconnect_config_error
accepted_checks cfg h = ground arith

accepted-IsValid : (cfg : ReconnectConfig) → get_reconnect_config_error cfg ≡ none → IsValid cfg
accepted-IsValid cfg h =
    let (i, m, t, mn, mf, jn, jf) = accepted_checks cfg h in
    record {
      initial_delay = i;
      max_delay = m;
      min_connect_timeout = t;
      multiplier = float-IsAmount _ mn mf;
      jitter = float-IsAmount _ jn jf;
    }

IsValid-accepted : (cfg : ReconnectConfig) → IsValid cfg → get_reconnect_config_error cfg ≡ none
unfolding get_reconnect_config_error
IsValid-accepted cfg v =
    let (mn, mf) = IsAmount-float cfg.multiplier v.multiplier in
    let (jn, jf) = IsAmount-float cfg.jitter v.jitter in
    ground (arith, mn, mf, jn, jf, v.initial_delay, v.max_delay, v.min_connect_timeout)

positive_delay :
    (d default : Duration) → pos 0 <ℤ default → pos 0 <ℤ (if is_positive d then d else default)
positive_delay d default h = ground arith

build-IsSound :
    (defaults : Backoff) (cfg : ReconnectConfig)
    → IsSound defaults
    → IsValid cfg
    → IsSound (build_connect_params defaults cfg).backoff
unfolding build_connect_params
build-IsSound defaults cfg s v = record {
  base_delay = positive_delay cfg.initial_delay defaults.base_delay s.base_delay;
  max_delay = positive_delay cfg.max_delay defaults.max_delay s.max_delay;
  multiplier = chosen-IsFactor cfg.multiplier defaults.multiplier v.multiplier s.multiplier;
  jitter = chosen-IsAmount cfg.jitter defaults.jitter v.jitter s.jitter;
}

-- Over sound defaults, a reconnect policy either breaks a documented rule, and an error is
-- reported, or adds one option behind those that are given, whose backoff is sound as well.
pub apply_tunnel_reconnect_policy-cases :
    (defaults : Backoff) (options : List DialOption) (cfg : ReconnectConfig)
    → IsSound defaults
    → let built = build_connect_params defaults cfg in
      ((e : PolicyError) × ((¬ IsValid cfg)
          × (get_reconnect_config_error cfg ≡ some e)
          × (apply_tunnel_reconnect_policy defaults options cfg ≡ inl e)))
      ⊎ (IsValid cfg
          × (apply_tunnel_reconnect_policy defaults options cfg
              ≡ inr (options ++ connect_params built ∷ []))
          × IsSound built.backoff)
unfolding apply_tunnel_reconnect_policy
apply_tunnel_reconnect_policy-cases defaults options cfg s =
    elim (Option-cases (get_reconnect_config_error cfg)) [
      | inl ok ↦
          let v = accepted-IsValid cfg ok in inr (v, rw ok refl, build-IsSound defaults cfg s v)
      | inr (e, bad) ↦ inl (e, (λ v. ground (arith, IsValid-accepted cfg v), bad, rw bad refl))
    ]

-- The options that the policies add where they are accepted.
abbrev pub reconnect_options : Backoff → Option ReconnectConfig → List DialOption
reconnect_options defaults none = []
reconnect_options defaults (some cfg) = connect_params (build_connect_params defaults cfg) ∷ []

abbrev pub keepalive_options : Option KeepaliveConfig → List DialOption
keepalive_options none = []
keepalive_options (some cfg) = keepalive_params (build_keepalive_params cfg) ∷ []

apply_reconnect-accepted :
    (defaults : Backoff) (cfg : ReconnectConfig)
    → get_reconnect_config_error cfg ≡ none
    → apply_tunnel_reconnect_policy defaults [] cfg
      ≡ inr (connect_params (build_connect_params defaults cfg) ∷ [])
unfolding apply_tunnel_reconnect_policy
apply_reconnect-accepted defaults cfg h = rw h refl

apply_keepalive-accepted :
    (cfg : KeepaliveConfig)
    → get_keepalive_config_error cfg ≡ none
    → apply_tunnel_keepalive_policy [] cfg
      ≡ inr (keepalive_params (build_keepalive_params cfg) ∷ [])
unfolding apply_tunnel_keepalive_policy
apply_keepalive-accepted cfg h = rw h refl

-- Accepted policies add their options in this order.
pub policy_options-accepted :
    (defaults : Backoff) (r : Option ReconnectConfig) (k : Option KeepaliveConfig)
    → optional_error get_reconnect_config_error r ≡ none
    → optional_error get_keepalive_config_error k ≡ none
    → policy_options defaults r k ≡ inr (reconnect_options defaults r ++ keepalive_options k)
unfolding policy_options optional_options
policy_options-accepted defaults none none hr hk = refl
policy_options-accepted defaults none (some k) hr hk = ground (arith, apply_keepalive-accepted k hk)
policy_options-accepted defaults (some r) none hr hk =
    ground (arith, apply_reconnect-accepted defaults r hr)
policy_options-accepted defaults (some r) (some k) hr hk =
    ground (arith, apply_reconnect-accepted defaults r hr, apply_keepalive-accepted k hk)
