-- ===== src/Target/Laws.antt =====
-- The targets that a native client accepts, and the URLs that it dials for them.
use go_grpcbridge.Base.{
  ◌≡◌, ◌≢◌, ◌↔◌, refl, sym, ap, ◌∙◌, Bool, none, some, [], ◌∷◌, ◌⊎◌, inl, inr, Text, codes,
  eq_text_iff, trim_space, is_empty_iff, arith, Option-cases, Bool-cases,
}
use go_grpcbridge.Target.{
  TargetUrl, UrlParser, map_http_scheme_to_web_socket, has_foreign_scheme, add_scheme,
  add_local_host, has_web_socket_scheme, checked_url, parse_mapped_target, parse_trimmed_target,
  parse_tunnel_target_url,
}
use go_grpcbridge.Target.Forms.{
  Normalizes, normalized, normalized-Normalizes, Normalizes-normalized,
}

checked_url-inr :
    (u : TargetUrl) (text : Text)
    → (checked_url (some u) ≡ inr text)
      ↔ (((u.scheme ≡ codes "ws") ⊎ (u.scheme ≡ codes "wss")) × (u.host ≢ []) × (u.text ≡ text))
unfolding checked_url has_web_socket_scheme
checked_url-inr u text = ground (
  arith,
  eq_text_iff u.scheme (codes "ws"),
  eq_text_iff u.scheme (codes "wss"),
  is_empty_iff u.host,
)

-- A URL that url.Parse gives for the text and that a tunnel can be dialed with.
pub record Dialable (parse : UrlParser) (url text : Text) : Type 0 where
  pub parsed : TargetUrl
  pub parses : parse url ≡ some parsed
  pub web_socket : (parsed.scheme ≡ codes "ws") ⊎ (parsed.scheme ≡ codes "wss")
  pub has_host : parsed.host ≢ []
  pub spelled : parsed.text ≡ text

checked_url-Dialable :
    (parse : UrlParser) (url text : Text)
    → (checked_url (parse url) ≡ inr text) ↔ Dialable parse url text
checked_url-Dialable parse url text = (
  λ h. elim (Option-cases (parse url)) [
    | inl missing ↦ absurd (refused missing h)
    | inr (u, e) ↦
        let (web_socket, has_host, spelled) =
          (checked_url-inr u text).0 (ap checked_url (sym e) ∙ h) in
        record {
          parsed = u;
          parses = e;
          web_socket = web_socket;
          has_host = has_host;
          spelled = spelled;
        }
  ],
  λ d.
      ap checked_url d.parses
      ∙ (checked_url-inr d.parsed text).1 (d.web_socket, d.has_host, d.spelled),
)
  where
    refused : parse url ≡ none → checked_url (parse url) ≡ inr text → ⊥
    refused missing h = unfold checked_url in ground (arith, missing)

parse_mapped-normalized :
    (parse : UrlParser) (tls : Bool) (target text : Text)
    → (parse_mapped_target parse tls (map_http_scheme_to_web_socket target) ≡ inr text)
      ↔ ((url : Text) × (normalized tls target ≡ some url) × (checked_url (parse url) ≡ inr text))
unfolding parse_mapped_target normalized
parse_mapped-normalized parse tls target text =
    elim (Bool-cases (has_foreign_scheme (map_http_scheme_to_web_socket target))) [
      | inl foreign ↦ (λ h. absurd (ground arith), λ (url, e, h). absurd (ground arith))
      | inr own ↦ (
        λ h. (
          add_scheme tls (add_local_host (map_http_scheme_to_web_socket target)),
          rw own refl,
          ground arith,
        ),
        λ (url, e, h). ground arith,
      )
    ]

-- A native client accepts exactly the targets that have, trimmed, one of the documented forms and
-- are not empty, and whose URL url.Parse reads as one with the scheme ws or wss and a host; it
-- dials that URL's String().
pub parse_tunnel_target_url_iff :
    (parse : UrlParser) (target : Text) (tls : Bool) (text : Text)
    → (parse_tunnel_target_url parse target tls ≡ inr text) ↔ (
        (trim_space target ≢ [])
        × ((url : Text) × Normalizes tls (trim_space target) url × Dialable parse url text))
unfolding parse_tunnel_target_url
parse_tunnel_target_url_iff parse target tls text = trimmed_iff (trim_space target)
  where
    trimmed_iff :
        (trimmed : Text)
        → (parse_trimmed_target parse tls trimmed ≡ inr text)
          ↔ ((trimmed ≢ []) × ((url : Text) × Normalizes tls trimmed url × Dialable parse url text))
    trimmed_iff [] = unfold parse_trimmed_target in ground arith
    trimmed_iff (c ∷ s) =
        unfold parse_trimmed_target in
        let (there, back) = parse_mapped-normalized parse tls (c ∷ s) text in
        (
          λ h.
              let (url, e, ok) = there h in
              (
                λ empty. ground arith,
                (
                  url,
                  normalized-Normalizes tls (c ∷ s) url e,
                  (checked_url-Dialable parse url text).0 ok,
                ),
              ),
          λ (_, (url, n, d)). back (
            url,
            Normalizes-normalized tls (c ∷ s) url n,
            (checked_url-Dialable parse url text).1 d,
          ),
        )
