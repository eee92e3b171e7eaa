-- ===== src/Target/Forms.antt =====
-- The forms of a target that a native client accepts, and the URLs that they stand for.
use go_grpcbridge.Base.{
  ◌≡◌, ◌++◌, refl, Bool, true, false, Option, none, some, ◌⊎◌, inl, inr, if◌then◌else◌, Text, codes,
  contains, cut, cut_prefix, has_prefix, cut_prefix-eq-some, arith, Option-cases, Bool-cases,
  has_prefix_iff,
}
use go_grpcbridge.Target.{
  map_http_scheme_to_web_socket, is_web_socket_url, has_foreign_scheme, add_local_host, scheme_for,
  add_scheme,
}

-- A target without "://".
abbrev pub IsBareTarget : Text → Type 0
IsBareTarget target = contains target (codes "://") ≡ false

-- The documented forms of a target, and the URL that each of them stands for.
pub data Normalizes (should_use_tls : Bool) (target url : Text) : Type 0 where
  secure_http :
      (rest : Text)
      → target ≡ codes "https://" ++ rest
      → url ≡ codes "wss://" ++ rest
      → Normalizes should_use_tls target url
  plain_http :
      (rest : Text)
      → target ≡ codes "http://" ++ rest
      → url ≡ codes "ws://" ++ rest
      → Normalizes should_use_tls target url
  secure_web_socket :
      (rest : Text)
      → target ≡ codes "wss://" ++ rest
      → url ≡ target
      → Normalizes should_use_tls target url
  plain_web_socket :
      (rest : Text)
      → target ≡ codes "ws://" ++ rest
      → url ≡ target
      → Normalizes should_use_tls target url
  port :
      (rest : Text)
      → target ≡ codes ":" ++ rest
      → IsBareTarget target
      → url ≡ (scheme_for should_use_tls ++ codes "://") ++ (codes "localhost" ++ target)
      → Normalizes should_use_tls target url
  authority :
      IsBareTarget target
      → has_prefix target (codes ":") ≡ false
      → url ≡ scheme_for should_use_tls ++ codes "://" ++ target
      → Normalizes should_use_tls target url

-- The URL that is parsed for a trimmed target, unless its scheme is refused.
unfoldable pub normalized : Bool → Text → Option Text
normalized should_use_tls target =
    let mapped = map_http_scheme_to_web_socket target in
    if has_foreign_scheme mapped
    then none
    else some (add_scheme should_use_tls (add_local_host mapped))

pub map_http-secure :
    (rest : Text)
    → map_http_scheme_to_web_socket (codes "https://" ++ rest) ≡ codes "wss://" ++ rest
unfolding map_http_scheme_to_web_socket cut_prefix
map_http-secure rest = refl

pub map_http-plain :
    (rest : Text) → map_http_scheme_to_web_socket (codes "http://" ++ rest) ≡ codes "ws://" ++ rest
unfolding map_http_scheme_to_web_socket cut_prefix
map_http-plain rest = refl

-- What the rewriting of the scheme does to a target.
pub map_http-cases :
    (target : Text)
    → ((rest : Text) × (target ≡ codes "https://" ++ rest))
      ⊎ (((rest : Text) × (target ≡ codes "http://" ++ rest))
          ⊎ (map_http_scheme_to_web_socket target ≡ target))
unfolding map_http_scheme_to_web_socket
map_http-cases target = elim (Option-cases (cut_prefix target (codes "https://"))) [
  | inr (rest, e) ↦ inl (rest, cut_prefix-eq-some target _ rest e)
  | inl not_secure ↦ elim (Option-cases (cut_prefix target (codes "http://"))) [
    | inr (rest, e) ↦ inr (inl (rest, cut_prefix-eq-some target _ rest e))
    | inl not_plain ↦ inr (inr (ground (arith, not_secure, not_plain)))
  ]
]

-- A prefix that ends in "://" shows in the target.
pub has_scheme :
    (rest : Text)
    → (contains (codes "https://" ++ rest) (codes "://") ≡ true)
      × (contains (codes "http://" ++ rest) (codes "://") ≡ true)
      × (contains (codes "wss://" ++ rest) (codes "://") ≡ true)
      × (contains (codes "ws://" ++ rest) (codes "://") ≡ true)
unfolding contains cut cut_prefix
has_scheme rest = (refl, refl, refl, refl)

pub refute :
    {target spelled : Text}
    → target ≡ spelled
    → contains spelled (codes "://") ≡ true
    → IsBareTarget target
    → ⊥
refute e there bare = cc

-- A websocket URL begins with one of the two schemes.
pub is_web_socket_url-cases :
    (target : Text)
    → is_web_socket_url target ≡ true
    → ((rest : Text) × (target ≡ codes "ws://" ++ rest))
      ⊎ ((rest : Text) × (target ≡ codes "wss://" ++ rest))
unfolding is_web_socket_url
is_web_socket_url-cases target h = elim (Bool-cases (has_prefix target (codes "ws://"))) [
  | inl plain ↦ inl ((has_prefix_iff _ _).0 plain)
  | inr other ↦ inr ((has_prefix_iff target (codes "wss://")).0 (ground arith))
]

pub bare-mapped :
    (target : Text) → IsBareTarget target → map_http_scheme_to_web_socket target ≡ target
bare-mapped target bare = elim (map_http-cases target) [
  | inl (rest, e) ↦ absurd (refute e ((has_scheme rest).0) bare)
  | inr (inl (rest, e)) ↦ absurd (refute e ((has_scheme rest).1) bare)
  | inr (inr same) ↦ same
]

pub bare-no_web_socket : (target : Text) → IsBareTarget target → is_web_socket_url target ≡ false
bare-no_web_socket target bare = elim (Bool-cases (is_web_socket_url target)) [
  | inr e ↦ e
  | inl h ↦ elim (is_web_socket_url-cases target h) [
    | inl (rest, e) ↦ absurd (refute e ((has_scheme rest).3) bare)
    | inr (rest, e) ↦ absurd (refute e ((has_scheme rest).2) bare)
  ]
]

-- What is parsed for a target of each form.
normalized-secure :
    (tls : Bool) (rest : Text)
    → normalized tls (codes "https://" ++ rest) ≡ some (codes "wss://" ++ rest)
unfolding normalized has_foreign_scheme map_http_scheme_to_web_socket add_scheme add_local_host
    contains cut has_prefix
normalized-secure tls rest = refl

normalized-plain :
    (tls : Bool) (rest : Text)
    → normalized tls (codes "http://" ++ rest) ≡ some (codes "ws://" ++ rest)
unfolding normalized has_foreign_scheme map_http_scheme_to_web_socket add_scheme add_local_host
    contains cut has_prefix
normalized-plain tls rest = refl

normalized-secure_web_socket :
    (tls : Bool) (rest : Text)
    → normalized tls (codes "wss://" ++ rest) ≡ some (codes "wss://" ++ rest)
unfolding normalized has_foreign_scheme map_http_scheme_to_web_socket add_scheme add_local_host
    contains cut has_prefix
normalized-secure_web_socket tls rest = refl

normalized-plain_web_socket :
    (tls : Bool) (rest : Text)
    → normalized tls (codes "ws://" ++ rest) ≡ some (codes "ws://" ++ rest)
unfolding normalized has_foreign_scheme map_http_scheme_to_web_socket add_scheme add_local_host
    contains cut has_prefix
normalized-plain_web_socket tls rest = refl

normalized-foreign :
    (tls : Bool) (target : Text) {url : Text}
    → map_http_scheme_to_web_socket target ≡ target
    → is_web_socket_url target ≡ false
    → contains target (codes "://") ≡ true
    → normalized tls target ≡ some url
    → ⊥
unfolding normalized has_foreign_scheme
normalized-foreign tls target same other foreign h = ground (arith, same, other, foreign)

normalized-port :
    (tls : Bool) (target rest : Text)
    → target ≡ codes ":" ++ rest
    → IsBareTarget target
    → normalized tls target
      ≡ some ((scheme_for tls ++ codes "://") ++ (codes "localhost" ++ target))
unfolding normalized has_foreign_scheme add_scheme add_local_host is_web_socket_url has_prefix
    cut_prefix
normalized-port tls target rest e bare = rw (bare-mapped target bare, bare, e) refl

normalized-authority :
    (tls : Bool) (target : Text)
    → IsBareTarget target
    → has_prefix target (codes ":") ≡ false
    → normalized tls target ≡ some (scheme_for tls ++ codes "://" ++ target)
unfolding normalized has_foreign_scheme add_scheme add_local_host
normalized-authority tls target bare host =
    rw (bare-mapped target bare, bare, host, bare-no_web_socket target bare) refl

pub one_answer : {o : Option Text} {a b : Text} → o ≡ some a → o ≡ some b → a ≡ b
one_answer p q = cc

pub normalized-Normalizes :
    (tls : Bool) (target url : Text) → normalized tls target ≡ some url → Normalizes tls target url
normalized-Normalizes tls target url h = elim (map_http-cases target) [
  | inl (rest, e) ↦ secure_http rest e (one_answer h (rw e (normalized-secure tls rest)))
  | inr (inl (rest, e)) ↦ plain_http rest e (one_answer h (rw e (normalized-plain tls rest)))
  | inr (inr same) ↦ elim (Bool-cases (is_web_socket_url target)) [
    | inl web ↦ elim (is_web_socket_url-cases target web) [
      | inl (rest, e) ↦
          plain_web_socket rest e (one_answer h (rw e (normalized-plain_web_socket tls rest)))
      | inr (rest, e) ↦
          secure_web_socket rest e (one_answer h (rw e (normalized-secure_web_socket tls rest)))
    ]
    | inr other ↦ elim (Bool-cases (contains target (codes "://"))) [
      | inl foreign ↦ absurd (normalized-foreign tls target same other foreign h)
      | inr bare ↦ elim (Bool-cases (has_prefix target (codes ":"))) [
        | inl colon ↦
            let (rest, e) = (has_prefix_iff target (codes ":")).0 colon in
            port rest e bare (one_answer h (normalized-port tls target rest e bare))
        | inr host ↦ authority bare host (one_answer h (normalized-authority tls target bare host))
      ]
    ]
  ]
]

pub Normalizes-normalized :
    (tls : Bool) (target url : Text) → Normalizes tls target url → normalized tls target ≡ some url
Normalizes-normalized tls target url (secure_http rest e u) = rw (e, u) (normalized-secure tls rest)
Normalizes-normalized tls target url (plain_http rest e u) = rw (e, u) (normalized-plain tls rest)
Normalizes-normalized tls target url (secure_web_socket rest e u) =
    rw (u, e) (normalized-secure_web_socket tls rest)
Normalizes-normalized tls target url (plain_web_socket rest e u) =
    rw (u, e) (normalized-plain_web_socket tls rest)
Normalizes-normalized tls target url (port rest e bare u) =
    rw u (normalized-port tls target rest e bare)
Normalizes-normalized tls target url (authority bare host u) =
    rw u (normalized-authority tls target bare host)
