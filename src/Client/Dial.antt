-- ===== src/Client/Dial.antt =====
-- How the arguments of Dial act: their order, and the settings that a browser does not allow.
use go_grpcbridge.Base.{
  ◌≡◌, ◌++◌, refl, Bool, true, false, ◌||◌, Option, none, some, List, [], ◌∷◌, ◌⊎◌, inl, inr, arith,
  Text, Option-cases, Any,
}
use go_grpcbridge.Target.{UrlParser, Location}
use go_grpcbridge.Policy.{Backoff, DialOption}
use go_grpcbridge.Client.{TunnelError}
use go_grpcbridge.Client.Options.{
  ClientOptions, no_client_options, ClientOption, apply_client_option, apply_client_options,
  DialArgument, split_dial_options, dial_config, dial_context,
}
use go_grpcbridge.Client.Browser.{
  get_browser_config_error_without_target, build_browser_conn, refused_settings,
  dial_browser_options, dial_browser_context,
}

-- The options that set what the browser manages.
abbrev pub is_managed : ClientOption → Bool
is_managed (ClientOption.with_tls cfg) = true
is_managed (ClientOption.with_headers header) = true
is_managed (ClientOption.with_header key value) = true
is_managed (ClientOption.with_proxy proxy) = true
is_managed (ClientOption.with_handshake_timeout timeout) = true
is_managed ClientOption.with_dial_compression = true
is_managed _ = false

abbrev pub is_managed_argument : DialArgument → Bool
is_managed_argument (DialArgument.tunnel_option opt) = is_managed opt
is_managed_argument _ = false

-- Whether any such setting was made.
managed : ClientOptions → Bool
managed o =
    o.has_tls || o.has_headers || o.has_proxy || o.has_timeout || o.should_enable_compression

apply-managed :
    (opt : ClientOption) (o : ClientOptions)
    → managed (apply_client_option opt o) ≡ (is_managed opt || managed o)
unfolding apply_client_option managed
apply-managed (ClientOption.with_tls cfg) o = refl
apply-managed (ClientOption.with_subprotocols names) o = refl
apply-managed (ClientOption.with_headers header) o = ground arith
apply-managed (ClientOption.with_header key value) o = ground arith
apply-managed (ClientOption.with_proxy proxy) o = ground arith
apply-managed (ClientOption.with_handshake_timeout timeout) o = ground arith
apply-managed ClientOption.with_dial_compression o = ground arith
apply-managed (ClientOption.with_reconnect_policy cfg) o = refl
apply-managed (ClientOption.with_tunnel_keepalive i t) o = refl

-- Once made, a setting stays made.
kept-managed :
    (o : ClientOptions) (opts : List ClientOption)
    → managed o ≡ true
    → managed (apply_client_options o opts) ≡ true
unfolding apply_client_options
kept-managed o [] h = h
kept-managed o (opt ∷ opts) h =
    kept-managed (apply_client_option opt o) opts (ground (arith, apply-managed opt o))

options-managed :
    (o : ClientOptions) (opts : List ClientOption)
    → Any (λ opt. is_managed opt ≡ true) opts
    → managed (apply_client_options o opts) ≡ true
unfolding apply_client_options
options-managed o [] h = ground arith
options-managed o (opt ∷ opts) (inl here) =
    kept-managed (apply_client_option opt o) opts (ground (arith, apply-managed opt o))
options-managed o (opt ∷ opts) (inr later) = options-managed (apply_client_option opt o) opts later

unrefused-unmanaged :
    (o : ClientOptions) (target : Text) (grpc : List DialOption)
    → managed o ≡ true
    → refused_settings o ≡ none
    → get_browser_config_error_without_target (dial_config target o grpc) ≡ none
    → ⊥
unfolding managed refused_settings get_browser_config_error_without_target dial_config
unrefused-unmanaged o target grpc h r e = ground arith

managed_refused :
    (parse : UrlParser) (page : Option Location) (defaults : Backoff) (target : Text)
    (o : ClientOptions) (grpc : List DialOption)
    → managed o ≡ true
    → (e : TunnelError) × (dial_browser_options parse page defaults target o grpc ≡ inl e)
unfolding dial_browser_options build_browser_conn
managed_refused parse page defaults target o grpc h = elim (Option-cases (refused_settings o)) [
  | inr (e, refused) ↦ (e, ground (arith, refused))
  | inl passed ↦
      elim (Option-cases (get_browser_config_error_without_target (dial_config target o grpc))) [
        | inr (e, refused) ↦ (e, ground (arith, passed, refused))
        | inl accepted ↦ absurd (unrefused-unmanaged o target grpc h passed accepted)
      ]
]

-- What splitDialOptions keeps of such a setting.
abbrev Shows : Option (List ClientOption × List DialOption) → Type 0
Shows none = Unit
Shows (some (tunnel, grpc)) = Any (λ opt. is_managed opt ≡ true) tunnel

split-Shows :
    (arguments : List DialArgument)
    → Any (λ argument. is_managed_argument argument ≡ true) arguments
    → Shows (split_dial_options arguments)
unfolding split_dial_options
split-Shows [] h = absurd h
split-Shows (DialArgument.tunnel_option opt ∷ rest) h =
    add (split_dial_options rest) (split-Shows rest) h
  where
    add :
        (found : Option (List ClientOption × List DialOption))
        → (Any (λ argument. is_managed_argument argument ≡ true) rest → Shows found)
        → (is_managed opt ≡ true) ⊎ Any (λ argument. is_managed_argument argument ≡ true) rest
        → Shows (elim found as (λ o. Option (List ClientOption × List DialOption)) [
          | none ↦ none
          | some (tunnel, grpc) ↦ some (opt ∷ tunnel, grpc)
        ])
    add none ih h = tt
    add (some (tunnel, grpc)) ih (inl here) = inl here
    add (some (tunnel, grpc)) ih (inr later) = inr (ih later)
split-Shows (DialArgument.grpc_option opt ∷ rest) h =
    add (split_dial_options rest) (split-Shows rest) h
  where
    add :
        (found : Option (List ClientOption × List DialOption))
        → (Any (λ argument. is_managed_argument argument ≡ true) rest → Shows found)
        → (false ≡ true) ⊎ Any (λ argument. is_managed_argument argument ≡ true) rest
        → Shows (elim found as (λ o. Option (List ClientOption × List DialOption)) [
          | none ↦ none
          | some (tunnel, grpc) ↦ some (tunnel, opt ∷ grpc)
        ])
    add none ih h = tt
    add (some (tunnel, grpc)) ih (inl here) = ground arith
    add (some (tunnel, grpc)) ih (inr later) = ih later
split-Shows (DialArgument.other_value ∷ rest) h = tt

-- In a browser, Dial refuses every call with an option for TLS, headers, a proxy, a handshake
-- timeout or the compression among its arguments, wherever it stands and whatever its value is.
pub dial_browser_context-refuses :
    (parse : UrlParser) (page : Option Location) (defaults : Backoff) (target : Text)
    (arguments : List DialArgument)
    → Any (λ argument. is_managed_argument argument ≡ true) arguments
    → (e : TunnelError) × (dial_browser_context parse page defaults target arguments ≡ inl e)
unfolding dial_browser_context
dial_browser_context-refuses parse page defaults target arguments h =
    refuse (split_dial_options arguments) refl (split-Shows arguments h)
  where
    refuse :
        (found : Option (List ClientOption × List DialOption))
        → split_dial_options arguments ≡ found
        → Shows found
        → (e : TunnelError) × (dial_browser_context parse page defaults target arguments ≡ inl e)
    refuse none e s = (TunnelError.unsupported_option, rw (e, dial_browser_context) refl)
    refuse (some (tunnel, grpc)) e s =
        let (error, refused) =
          managed_refused parse page defaults target _ grpc
            (options-managed no_client_options tunnel s) in
        (error, rw (e, dial_browser_context) refused)

split-swapped :
    (before after : List DialArgument) (tunnel : ClientOption) (grpc : DialOption)
    → split_dial_options
        (before ++ DialArgument.tunnel_option tunnel ∷ (DialArgument.grpc_option grpc ∷ after))
      ≡ split_dial_options
          (before ++ DialArgument.grpc_option grpc ∷ (DialArgument.tunnel_option tunnel ∷ after))
unfolding split_dial_options
split-swapped [] after tunnel grpc = elim (Option-cases (split_dial_options after)) [
  | inl bad ↦ rw bad refl
  | inr (found, e) ↦ rw e refl
]
split-swapped (DialArgument.tunnel_option opt ∷ before) after tunnel grpc =
    rw (split-swapped before after tunnel grpc) refl
split-swapped (DialArgument.grpc_option opt ∷ before) after tunnel grpc =
    rw (split-swapped before after tunnel grpc) refl
split-swapped (DialArgument.other_value ∷ before) after tunnel grpc = refl

-- The options of the tunnel and those of gRPC do not depend on each other's place: neighbours of
-- different kinds can change places among the arguments of Dial.
pub dial_context-swapped :
    (parse : UrlParser) (defaults : Backoff) (target : Text) (before after : List DialArgument)
    (tunnel : ClientOption) (grpc : DialOption)
    → dial_context parse defaults target
        (before ++ DialArgument.tunnel_option tunnel ∷ (DialArgument.grpc_option grpc ∷ after))
      ≡ dial_context parse defaults target
          (before ++ DialArgument.grpc_option grpc ∷ (DialArgument.tunnel_option tunnel ∷ after))
unfolding dial_context
dial_context-swapped parse defaults target before after tunnel grpc =
    rw (split-swapped before after tunnel grpc, dial_context) refl
