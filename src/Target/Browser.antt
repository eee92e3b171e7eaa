-- ===== src/Target/Browser.antt =====
-- The targets that a client in a browser accepts, and the URLs that it dials for them.
use go_grpcbridge.Base.{
  ◌≡◌, ◌≢◌, ◌++◌, ◌↔◌, refl, sym, ap, ◌∙◌, Bool, true, false, Option, none, some, [], ◌∷◌, ◌⊎◌, inl,
  inr, if◌then◌else◌, Text, codes, eq_text, trim_space, contains, cut, cut_prefix, has_prefix,
  is_empty, cut_prefix-eq-some, arith, Option-cases, Bool-cases, has_prefix_iff, ◌==◌,
  trim_space_nonblank,
}
use go_grpcbridge.Target.{
  Location, map_http_scheme_to_web_socket, is_web_socket_url, has_foreign_scheme, scheme_for,
  url_on_page, url_off_page, infer_mapped_url, nonblank_url, infer_browser_web_socket_url,
  parse_browser_target,
}
use go_grpcbridge.Target.Forms.{IsBareTarget, bare-no_web_socket, is_web_socket_url-cases}

-- The documented forms of a target on a page, and the URL that each of them stands for.
pub data PageNormalizes (page : Location) (target url : Text) : Type 0 where
  same_origin :
      target ≡ []
      → url ≡ (scheme_for (eq_text page.protocol (codes "https:")) ++ codes "://") ++ page.host
      → PageNormalizes page target url
  path :
      (rest : Text)
      → target ≡ codes "/" ++ rest
      → url
        ≡ ((scheme_for (eq_text page.protocol (codes "https:")) ++ codes "://") ++ page.host)
          ++ target
      → PageNormalizes page target url
  authority :
      target ≢ []
      → has_prefix target (codes "/") ≡ false
      → url ≡ (scheme_for (eq_text page.protocol (codes "https:")) ++ codes "://") ++ target
      → PageNormalizes page target url

-- Without a page only the default address and authorities are left.
pub data OffPageNormalizes (target url : Text) : Type 0 where
  default_address : target ≡ [] → url ≡ codes "ws://localhost:8080" → OffPageNormalizes target url
  bare_authority : target ≢ [] → url ≡ codes "ws://" ++ target → OffPageNormalizes target url

abbrev pub BareNormalizes : Option Location → Text → Text → Type 0
BareNormalizes none = OffPageNormalizes
BareNormalizes (some page) = PageNormalizes page

-- The forms with a scheme do not depend on the page.
pub data BrowserNormalizes (page : Option Location) (target url : Text) : Type 0 where
  secure_http :
      (rest : Text)
      → target ≡ codes "https://" ++ rest
      → url ≡ codes "wss://" ++ rest
      → BrowserNormalizes page target url
  plain_http :
      (rest : Text)
      → target ≡ codes "http://" ++ rest
      → url ≡ codes "ws://" ++ rest
      → BrowserNormalizes page target url
  secure_web_socket :
      (rest : Text)
      → target ≡ codes "wss://" ++ rest
      → url ≡ target
      → BrowserNormalizes page target url
  plain_web_socket :
      (rest : Text)
      → target ≡ codes "ws://" ++ rest
      → url ≡ target
      → BrowserNormalizes page target url
  bare : IsBareTarget target → BareNormalizes page target url → BrowserNormalizes page target url

off_page_iff : (target url : Text) → (url_off_page target ≡ url) ↔ OffPageNormalizes target url
unfolding url_off_page
off_page_iff [] url = (
  λ e. default_address refl (sym e),
  λ n. elim n [
    | default_address _ e ↦ sym e
    | bare_authority some_target _ ↦ absurd (some_target refl)
  ],
)
off_page_iff (c ∷ s) url = (
  λ e. bare_authority (λ empty. ground arith) (sym e),
  λ n. elim n [ default_address empty _ ↦ ground arith | bare_authority _ e ↦ sym e ],
)

on_page_iff :
    (page : Location) (target url : Text)
    → (url_on_page page target ≡ url) ↔ PageNormalizes page target url
unfolding url_on_page has_prefix cut_prefix
on_page_iff page [] url = (
  λ e. same_origin refl (sym e),
  λ n. elim n [
    | same_origin _ e ↦ sym e
    | path rest empty _ ↦ ground arith
    | authority some_target _ _ ↦ absurd (some_target refl)
  ],
)
on_page_iff page (c ∷ s) url = elim (Bool-cases (c == b'/')) [
  | inl slash ↦ rw slash (
    λ e. path s (ground (arith, slash)) (sym e),
    λ n. elim n [
      | same_origin empty _ ↦ ground arith
      | path rest _ e ↦ sym e
      | authority _ no_slash _ ↦ ground (arith, slash)
    ],
  )
  | inr other ↦ rw other (
    λ e. authority (λ empty. ground arith) (ground (arith, other)) (sym e),
    λ n. elim n [
      | same_origin empty _ ↦ ground arith
      | path rest spelled _ ↦ ground (arith, other)
      | authority _ _ e ↦ sym e
    ],
  )
]

pub bare_iff :
    (page : Option Location) (target url : Text)
    → IsBareTarget target
    → (infer_mapped_url page target ≡ url) ↔ BareNormalizes page target url
unfolding infer_mapped_url
bare_iff none target url b = rw (bare-no_web_socket target b) (off_page_iff target url)
bare_iff (some page) target url b = rw (bare-no_web_socket target b) (on_page_iff page target url)

-- A URL that is dialed begins with a "w", so it is never blank.
abbrev BeginsWithScheme : Text → Type 0
BeginsWithScheme url = (rest : Text) × (url ≡ b'w' ∷ rest)

scheme_for-begins : (tls : Bool) → BeginsWithScheme (scheme_for tls)
scheme_for-begins true = (codes "ss", refl)
scheme_for-begins false = (codes "s", refl)

append-begins : {a : Text} → BeginsWithScheme a → (b : Text) → BeginsWithScheme (a ++ b)
append-begins (rest, e) b = (rest ++ b, ap (λ l. l ++ b) e)

url_on_page-begins : (page : Location) (target : Text) → BeginsWithScheme (url_on_page page target)
unfolding url_on_page
url_on_page-begins page [] =
    append-begins (append-begins (scheme_for-begins _) (codes "://")) page.host
url_on_page-begins page (c ∷ s) = elim (Bool-cases (c == b'/')) [
  | inl slash ↦ rw slash (
      append-begins (append-begins (append-begins (scheme_for-begins _) (codes "://")) page.host)
        (c ∷ s))
  | inr other ↦ rw other (append-begins (append-begins (scheme_for-begins _) (codes "://")) (c ∷ s))
]

url_off_page-begins : (target : Text) → BeginsWithScheme (url_off_page target)
unfolding url_off_page
url_off_page-begins [] = (codes "s://localhost:8080", refl)
url_off_page-begins (c ∷ s) = (codes "s://" ++ c ∷ s, refl)

pub web_socket-begins : (target : Text) → is_web_socket_url target ≡ true → BeginsWithScheme target
web_socket-begins target web = elim (is_web_socket_url-cases target web) [
  | inl (rest, e) ↦ (codes "s://" ++ rest, e)
  | inr (rest, e) ↦ (codes "ss://" ++ rest, e)
]

infer_mapped_url-begins :
    (page : Option Location) (target : Text) → BeginsWithScheme (infer_mapped_url page target)
unfolding infer_mapped_url
infer_mapped_url-begins none target = elim (Bool-cases (is_web_socket_url target)) [
  | inl web ↦ rw web (web_socket-begins target web)
  | inr other ↦ rw other (url_off_page-begins target)
]
infer_mapped_url-begins (some page) target = elim (Bool-cases (is_web_socket_url target)) [
  | inl web ↦ rw web (web_socket-begins target web)
  | inr other ↦ rw other (url_on_page-begins page target)
]

nonblank_url-begins : (url : Text) → BeginsWithScheme url → nonblank_url url ≡ inr url
unfolding nonblank_url go_grpcbridge.Base.is_space
nonblank_url-begins url (rest, e) = ground (arith, trim_space_nonblank b'w' rest refl)

pub parse_browser-inferred :
    (page : Option Location) (target url : Text)
    → (parse_browser_target page target ≡ inr url) ↔ (
        (has_foreign_scheme (map_http_scheme_to_web_socket target) ≡ false)
        × (infer_mapped_url page (map_http_scheme_to_web_socket target) ≡ url))
unfolding parse_browser_target infer_browser_web_socket_url
parse_browser-inferred page target url =
    let mapped = map_http_scheme_to_web_socket target in
    let dialed = nonblank_url-begins _ (infer_mapped_url-begins page mapped) in
    ground (arith, dialed)
