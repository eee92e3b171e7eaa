-- ===== src/Target.antt =====
-- pkg/grpctunnel/client.go, client_wasm.go and api.go: how a client turns a target into the URL of its
-- websocket and into the target that it hands to gRPC, natively and in a browser. url.Parse is an
-- argument; the text of an error is left out.
pub mod Forms
pub mod Laws
pub mod Browser
pub mod BrowserLaws
pub mod Tests
use go_grpcbridge.Base.{
  ℕ, ◌++◌, Bool, true, false, not, ◌&&◌, ◌||◌, Option, none, some, [], ◌∷◌, ◌⊎◌, inl, inr,
  if◌then◌else◌, Text, codes, eq_text, trim_space, contains, cut_prefix, has_prefix, is_empty, ◌==◌,
}

-- What the clients read of a url.URL: its scheme, its host and its String().
pub record TargetUrl : Type 0 where
  pub scheme : Text
  pub host : Text
  pub text : Text

-- url.Parse, or none where it returns an error.
abbrev pub UrlParser : Type 0
UrlParser = Text → Option TargetUrl

pub data DialTargetError : Type 0 where
  target_required target_invalid scheme_unsupported host_missing : DialTargetError
  tls_flag_unsupported url_empty : DialTargetError

-- mapHTTPSchemeToWebSocket.
pub map_http_scheme_to_web_socket : Text → Text
map_http_scheme_to_web_socket target = elim (cut_prefix target (codes "https://")) [
  | some rest ↦ codes "wss://" ++ rest
  | none ↦ elim (cut_prefix target (codes "http://")) [
    | some rest ↦ codes "ws://" ++ rest
    | none ↦ target
  ]
]

pub is_web_socket_url : Text → Bool
is_web_socket_url target = has_prefix target (codes "ws://") || has_prefix target (codes "wss://")

pub has_foreign_scheme : Text → Bool
unfolding is_web_socket_url
has_foreign_scheme target = contains target (codes "://") && not (is_web_socket_url target)

pub add_local_host : Text → Text
add_local_host target =
    if has_prefix target (codes ":") then codes "localhost" ++ target else target

abbrev pub scheme_for : Bool → Text
scheme_for should_use_tls = if should_use_tls then codes "wss" else codes "ws"

pub add_scheme : Bool → Text → Text
unfolding is_web_socket_url
add_scheme should_use_tls target =
    if is_web_socket_url target then target else scheme_for should_use_tls ++ codes "://" ++ target

pub has_web_socket_scheme : TargetUrl → Bool
has_web_socket_scheme u = eq_text u.scheme (codes "ws") || eq_text u.scheme (codes "wss")

pub checked_url : Option TargetUrl → DialTargetError ⊎ Text
unfolding has_web_socket_scheme
checked_url none = inl target_invalid
checked_url (some u) =
    if not (has_web_socket_scheme u)
    then inl scheme_unsupported
    else if is_empty u.host
    then inl host_missing
    else inr u.text

pub foreign_error : Option TargetUrl → DialTargetError
foreign_error none = target_invalid
foreign_error (some u) = scheme_unsupported

pub parse_mapped_target : UrlParser → Bool → Text → DialTargetError ⊎ Text
unfolding has_foreign_scheme
parse_mapped_target parse should_use_tls target =
    if has_foreign_scheme target
    then inl (foreign_error (parse target))
    else checked_url (parse (add_scheme should_use_tls (add_local_host target)))

pub parse_trimmed_target : UrlParser → Bool → Text → DialTargetError ⊎ Text
parse_trimmed_target parse should_use_tls [] = inl target_required
parse_trimmed_target parse should_use_tls (c ∷ s) =
    parse_mapped_target parse should_use_tls (map_http_scheme_to_web_socket (c ∷ s))

-- ParseTunnelTargetURL of client.go.
pub parse_tunnel_target_url : UrlParser → Text → Bool → DialTargetError ⊎ Text
unfolding parse_trimmed_target parse_mapped_target
parse_tunnel_target_url parse target should_use_tls =
    parse_trimmed_target parse should_use_tls (trim_space target)

-- inferWebSocketURL.
pub infer_web_socket_url : UrlParser → Text → Bool → Text
unfolding parse_tunnel_target_url
infer_web_socket_url parse target should_use_tls =
    elim (parse_tunnel_target_url parse target should_use_tls) [ inl e ↦ target | inr url ↦ url ]

-- The fields of the browser's window.location that the program reads.
pub record Location : Type 0 where
  pub protocol : Text
  pub host : Text

-- The URL of a target without a websocket scheme, on a page.
pub url_on_page : Location → Text → Text
url_on_page page target =
    let scheme = scheme_for (eq_text page.protocol (codes "https:")) in
    elim target [
      | [] ↦ scheme ++ codes "://" ++ page.host
      | c ∷ s ↦
          if c == b'/'
          then scheme ++ codes "://" ++ page.host ++ c ∷ s
          else scheme ++ codes "://" ++ c ∷ s
    ]

pub url_off_page : Text → Text
url_off_page [] = codes "ws://localhost:8080"
url_off_page (c ∷ s) = codes "ws://" ++ c ∷ s

pub infer_mapped_url : Option Location → Text → Text
unfolding url_on_page url_off_page is_web_socket_url
infer_mapped_url page target =
    if is_web_socket_url target
    then target
    else elim page [ none ↦ url_off_page target | some location ↦ url_on_page location target ]

-- inferBrowserWebSocketURL; none stands for a location that is not there.
pub infer_browser_web_socket_url : Option Location → Text → Text
unfolding infer_mapped_url map_http_scheme_to_web_socket
infer_browser_web_socket_url page target =
    infer_mapped_url page (map_http_scheme_to_web_socket target)

pub nonblank_url : Text → DialTargetError ⊎ Text
nonblank_url url = if is_empty (trim_space url) then inl url_empty else inr url

pub parse_browser_target : Option Location → Text → DialTargetError ⊎ Text
unfolding has_foreign_scheme infer_browser_web_socket_url nonblank_url
parse_browser_target page target =
    if has_foreign_scheme (map_http_scheme_to_web_socket target)
    then inl scheme_unsupported
    else nonblank_url (infer_browser_web_socket_url page target)

-- ParseTunnelTargetURL of client_wasm.go.
pub parse_browser_tunnel_target_url : Option Location → Text → Bool → DialTargetError ⊎ Text
unfolding parse_browser_target
parse_browser_tunnel_target_url page target should_use_tls =
    if should_use_tls
    then inl tls_flag_unsupported
    else parse_browser_target page (trim_space target)

pub dial_target_of : Text → Text → Option TargetUrl → Text
unfolding has_web_socket_scheme
dial_target_of trimmed tunnel_url none = trimmed
dial_target_of trimmed tunnel_url (some u) =
    if has_web_socket_scheme u && not (is_empty u.host) then u.host else trimmed

-- buildTunnelGRPCDialTarget.
pub build_tunnel_grpc_dial_target : UrlParser → Text → Text → Text
unfolding dial_target_of
build_tunnel_grpc_dial_target parse target tunnel_url =
    let trimmed = trim_space target in
    if is_empty trimmed then tunnel_url else dial_target_of trimmed tunnel_url (parse trimmed)
