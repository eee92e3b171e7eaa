-- ===== src/Target/BrowserLaws.antt =====
-- Which targets a client in a browser accepts.
use go_grpcbridge.Base.{
  ◌≡◌, ◌++◌, ◌↔◌, refl, sym, ap, ◌∙◌, Bool, true, false, Option, ◌⊎◌, inl, inr, Text, codes,
  trim_space, cut_prefix, has_prefix, arith, Bool-cases,
}
use go_grpcbridge.Target.{
  Location, DialTargetError, map_http_scheme_to_web_socket, is_web_socket_url, has_foreign_scheme,
  infer_mapped_url, parse_browser_target, parse_browser_tunnel_target_url,
}
use go_grpcbridge.Target.Forms.{
  IsBareTarget, bare-mapped, map_http-cases, map_http-secure, map_http-plain,
  is_web_socket_url-cases,
}
use go_grpcbridge.Target.Browser.{BrowserNormalizes, bare_iff, parse_browser-inferred}

-- What is dialed for the targets with a scheme.
scheme_target :
    (page : Option Location) (target mapped : Text)
    → map_http_scheme_to_web_socket target ≡ mapped
    → is_web_socket_url mapped ≡ true
    → parse_browser_target page target ≡ inr mapped
scheme_target page target mapped e web = (parse_browser-inferred page target mapped).1 (
  unfold has_foreign_scheme in rw (e, web) (ground arith),
  unfold infer_mapped_url in rw (e, web) refl,
)

one_url : {o : DialTargetError ⊎ Text} {a b : Text} → o ≡ inr a → o ≡ inr b → b ≡ a
one_url p q = ground arith

web_schemes :
    (rest : Text)
    → (is_web_socket_url (codes "wss://" ++ rest) ≡ true)
      × (is_web_socket_url (codes "ws://" ++ rest) ≡ true)
      × (map_http_scheme_to_web_socket (codes "wss://" ++ rest) ≡ codes "wss://" ++ rest)
      × (map_http_scheme_to_web_socket (codes "ws://" ++ rest) ≡ codes "ws://" ++ rest)
unfolding is_web_socket_url has_prefix cut_prefix map_http_scheme_to_web_socket
web_schemes rest = (refl, refl, refl, refl)

own-bare :
    (target : Text)
    → map_http_scheme_to_web_socket target ≡ target
    → is_web_socket_url target ≡ false
    → has_foreign_scheme (map_http_scheme_to_web_socket target) ≡ false
    → IsBareTarget target
unfolding has_foreign_scheme
own-bare target same other own = ground (arith, same, other)

-- The dialed URL of a target that the rewriting leaves as it is.
unmapped-BrowserNormalizes :
    (page : Option Location) (target url : Text)
    → map_http_scheme_to_web_socket target ≡ target
    → is_web_socket_url target ≡ false
    → parse_browser_target page target ≡ inr url
    → BrowserNormalizes page target url
unmapped-BrowserNormalizes page target url same other h =
    let (own, dialed) = (parse_browser-inferred page target url).0 h in
    let bare : IsBareTarget target = own-bare target same other own in
    BrowserNormalizes.bare bare
      ((bare_iff page target url bare).0 (ap (infer_mapped_url page) (sym same) ∙ dialed))

accepted-BrowserNormalizes :
    (page : Option Location) (target url : Text)
    → parse_browser_target page target ≡ inr url
    → BrowserNormalizes page target url
accepted-BrowserNormalizes page target url h = elim (map_http-cases target) [
  | inl (rest, e) ↦ BrowserNormalizes.secure_http rest e (
      one_url
        (scheme_target page target _ (ap map_http_scheme_to_web_socket e ∙ map_http-secure rest)
          (web_schemes rest).0)
        h)
  | inr (inl (rest, e)) ↦ BrowserNormalizes.plain_http rest e (
      one_url
        (scheme_target page target _ (ap map_http_scheme_to_web_socket e ∙ map_http-plain rest)
          (web_schemes rest).1)
        h)
  | inr (inr same) ↦ elim (Bool-cases (is_web_socket_url target)) [
    | inl web ↦
        let spelled = one_url (scheme_target page target target same web) h in
        elim (is_web_socket_url-cases target web) [
          | inl (rest, e) ↦ BrowserNormalizes.plain_web_socket rest e spelled
          | inr (rest, e) ↦ BrowserNormalizes.secure_web_socket rest e spelled
        ]
    | inr other ↦ unmapped-BrowserNormalizes page target url same other h
  ]
]

BrowserNormalizes-accepted :
    (page : Option Location) (target url : Text)
    → BrowserNormalizes page target url
    → parse_browser_target page target ≡ inr url
BrowserNormalizes-accepted page target url (BrowserNormalizes.secure_http rest e u) =
    rw (u, e) (scheme_target page _ _ (map_http-secure rest) (web_schemes rest).0)
BrowserNormalizes-accepted page target url (BrowserNormalizes.plain_http rest e u) =
    rw (u, e) (scheme_target page _ _ (map_http-plain rest) (web_schemes rest).1)
BrowserNormalizes-accepted page target url (BrowserNormalizes.secure_web_socket rest e u) =
    rw (u, e) (scheme_target page _ _ (web_schemes rest).2 (web_schemes rest).0)
BrowserNormalizes-accepted page target url (BrowserNormalizes.plain_web_socket rest e u) =
    rw (u, e) (scheme_target page _ _ (web_schemes rest).3 (web_schemes rest).1)
BrowserNormalizes-accepted page target url (BrowserNormalizes.bare b n) =
    (parse_browser-inferred page target url).1 (
      unfold has_foreign_scheme in rw (bare-mapped target b, b) refl,
      ap (infer_mapped_url page) (bare-mapped target b) ∙ (bare_iff page target url b).1 n,
    )

-- A client in a browser accepts exactly the calls without the TLS flag whose target has, trimmed,
-- one of the documented forms, and it dials the URL that the form stands for on its page; no URL
-- is blank.
pub parse_browser_tunnel_target_url_iff :
    (page : Option Location) (target : Text) (tls : Bool) (url : Text)
    → (parse_browser_tunnel_target_url page target tls ≡ inr url)
      ↔ ((tls ≡ false) × BrowserNormalizes page (trim_space target) url)
unfolding parse_browser_tunnel_target_url
parse_browser_tunnel_target_url_iff page target true url = ground arith
parse_browser_tunnel_target_url_iff page target false url = (
  λ h. (refl, accepted-BrowserNormalizes page (trim_space target) url h),
  λ (_, n). BrowserNormalizes-accepted page (trim_space target) url n,
)
