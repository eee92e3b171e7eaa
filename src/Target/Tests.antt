-- ===== src/Target/Tests.antt =====
-- Targets at concrete texts.
use go_grpcbridge.Base.{
  ◌≡◌, ◌≢◌, ◌++◌, ◌↔◌, refl, Bool, true, false, Option, none, some, List, [], ◌∷◌, ◌⊎◌, inl, inr,
  arith, Text, codes, trim_space,
}
use go_grpcbridge.Target.{
  UrlParser, Location, TargetUrl, parse_tunnel_target_url, parse_browser_tunnel_target_url,
  scheme_unsupported,
}
use go_grpcbridge.Target.Forms.{Normalizes}
use go_grpcbridge.Target.Laws.{Dialable, parse_tunnel_target_url_iff}
use go_grpcbridge.Target.Browser.{BrowserNormalizes}
use go_grpcbridge.Target.BrowserLaws.{parse_browser_tunnel_target_url_iff}

-- A parser that knows one URL.
abbrev pub parser : UrlParser
parser url = some (record {
  scheme = codes "wss";
  host = codes "localhost:8080";
  text = codes "wss://localhost:8080";
})

port_target :
    (parse_tunnel_target_url parser (codes " :8080 ") true ≡ inr (codes "wss://localhost:8080"))
    × (parse_tunnel_target_url parser (codes "ftp://host") true ≡ inl scheme_unsupported)
unfolding parse_tunnel_target_url go_grpcbridge.Base.trim_space go_grpcbridge.Base.contains
    go_grpcbridge.Base.has_prefix go_grpcbridge.Base.cut go_grpcbridge.Base.cut_prefix
    go_grpcbridge.Base.eq_text go_grpcbridge.Target.map_http_scheme_to_web_socket
    go_grpcbridge.Target.add_local_host go_grpcbridge.Target.add_scheme
    go_grpcbridge.Target.checked_url go_grpcbridge.Target.foreign_error
port_target = (refl, refl)

parse_tunnel_target_url_iff_example :
    (parse_tunnel_target_url parser (codes ":8080") true ≡ inr (codes "wss://localhost:8080")) ↔ (
      (trim_space (codes ":8080") ≢ [])
      × ((url : Text) × Normalizes true (trim_space (codes ":8080")) url
          × Dialable parser url (codes "wss://localhost:8080")))
parse_tunnel_target_url_iff_example =
    parse_tunnel_target_url_iff parser (codes ":8080") true (codes "wss://localhost:8080")

abbrev page : Location
page = record { protocol = codes "https:"; host = codes "example.com" }

parse_browser_tunnel_target_url_iff_example :
    (parse_browser_tunnel_target_url (some page) (codes "/grpc") false
      ≡ inr (codes "wss://example.com/grpc"))
    ↔ ((false ≡ false)
        × BrowserNormalizes
            (some page)
            (trim_space (codes "/grpc"))
            (codes "wss://example.com/grpc"))
parse_browser_tunnel_target_url_iff_example =
    parse_browser_tunnel_target_url_iff (some page) (codes "/grpc") false
      (codes "wss://example.com/grpc")

same_origin_url :
    (parse_browser_tunnel_target_url (some page) (codes "/grpc") false
      ≡ inr (codes "wss://example.com/grpc"))
    × (parse_browser_tunnel_target_url none [] false ≡ inr (codes "ws://localhost:8080"))
unfolding parse_browser_tunnel_target_url go_grpcbridge.Base.trim_space go_grpcbridge.Base.contains
    go_grpcbridge.Base.has_prefix go_grpcbridge.Base.cut go_grpcbridge.Base.cut_prefix
    go_grpcbridge.Base.eq_text go_grpcbridge.Target.map_http_scheme_to_web_socket
    go_grpcbridge.Target.add_local_host go_grpcbridge.Target.add_scheme
    go_grpcbridge.Target.checked_url go_grpcbridge.Target.foreign_error
same_origin_url = (refl, refl)
