-- ===== src/HandlerAbuse.antt =====
-- pkg/bridge/abuse_control.go and retry_after.go: the guard of the reverse-proxy handler, that of
-- pkg/grpctunnel/abuse_control.go without the sweep of expired windows, and the wait of a refusal.
pub mod Agreement
pub mod AgreementSteps
pub mod Equivalence
pub mod Retry
pub mod Tests
use go_grpcbridge.Base.{
  ℕ, zero, suc, ◌+◌, ◌-◌, ◌/◌, ◌≡◌, Bool, true, false, not, ◌&&◌, ◌||◌, Option, none, some, List,
  [], ◌∷◌, if◌then◌else◌, ltb, leb, ◌==◌, ℤ, pos, is_positive, leℤ, Text, codes, trim_space, Dict,
  lookup, insert, delete, or_zero,
}
use go_grpcbridge.Net.{Request, split_host_port}
use go_grpcbridge.Clock.{Time, Duration, minute, second, is_zero, sub}
use go_grpcbridge.HandlerConfig.{HandlerConfig}
use go_grpcbridge.Abuse.{RateWindow, Refusal, or_empty_window}

-- handlerAbuseGuard; its windows and errors have the fields of those of the other guard.
pub record HandlerGuard : Type 0 where
  pub config : HandlerConfig
  pub active_connections : ℕ
  pub client_connections : Dict ℕ
  pub client_upgrade_attempts : Dict RateWindow

-- buildHandlerAbuseGuard.
pub build_handler_abuse_guard : HandlerConfig → HandlerGuard
build_handler_abuse_guard cfg = record {
  config = cfg;
  active_connections = 0;
  client_connections = [];
  client_upgrade_attempts = [];
}

pub handler_host_or_address : Text → Option (Text × Text) → Text
handler_host_or_address address none = address
handler_host_or_address address (some (host, port)) = trim_space host

pub handler_key_of_address : Text → Text
unfolding handler_host_or_address
handler_key_of_address [] = []
handler_key_of_address (c ∷ s) = handler_host_or_address (c ∷ s) (split_host_port (c ∷ s))

-- buildHandlerClientKey.
pub build_handler_client_key : Option Request → Text
unfolding handler_key_of_address
build_handler_client_key none = []
build_handler_client_key (some r) = handler_key_of_address (trim_space r.remote_addr)

pub known_key : Text → Text
known_key [] = codes "unknown"
known_key (c ∷ s) = c ∷ s

pub handler_key : Option Request → Text
unfolding known_key
handler_key r = known_key (build_handler_client_key r)

pub handler_window : Time → Option RateWindow → RateWindow
handler_window now found =
    let window = or_empty_window found in
    if is_zero window.started_at || leℤ (pos minute) (sub now window.started_at)
    then record { started_at = now; count = 0 }
    else window

pub count_handler_attempt : Text → Time → RateWindow → HandlerGuard → HandlerGuard × Option Refusal
count_handler_attempt key now window g =
    if leℤ g.config.max_upgrades_per_client_per_minute (pos window.count)
    then (g, some (Refusal.rate_exceeded key (sub (window.started_at + minute) now)))
    else (
      record g {
        client_upgrade_attempts =
            insert key (record window { count = window.count + 1 }) g.client_upgrade_attempts;
      },
      none,
    )

-- The upgrade-rate half of reserveHandlerConnection.
pub charge_handler_upgrade : Text → Time → HandlerGuard → HandlerGuard × Option Refusal
unfolding handler_window count_handler_attempt
charge_handler_upgrade key now g =
    count_handler_attempt key now (handler_window now (lookup key g.client_upgrade_attempts)) g

-- The caps of reserveHandlerConnection, and the reservation.
pub take_handler_slot : Text → HandlerGuard → HandlerGuard × Option Refusal
take_handler_slot key g =
    let held = or_zero (lookup key g.client_connections) in
    if is_positive g.config.max_active_connections
      && leℤ g.config.max_active_connections (pos g.active_connections)
    then (g, some Refusal.active_cap_exceeded)
    else if is_positive g.config.max_connections_per_client
        && leℤ g.config.max_connections_per_client (pos held)
    then (g, some (Refusal.client_cap_exceeded key))
    else (
      record g {
        active_connections = g.active_connections + 1;
        client_connections = insert key (held + 1) g.client_connections;
      },
      none,
    )

abbrev pub then_take_handler_slot :
    Text → HandlerGuard × Option Refusal → HandlerGuard × Option Refusal
then_take_handler_slot key (g, some refusal) = (g, some refusal)
then_take_handler_slot key (g, none) = take_handler_slot key g

-- reserveHandlerConnection.
pub reserve_handler_connection :
    Option Request → Time → HandlerGuard → HandlerGuard × Option Refusal
reserve_handler_connection r now g =
    if is_positive g.config.max_upgrades_per_client_per_minute
    then then_take_handler_slot (handler_key r) (charge_handler_upgrade (handler_key r) now g)
    else take_handler_slot (handler_key r) g

-- clearHandlerConnection.
pub clear_handler_connection : Option Request → HandlerGuard → HandlerGuard
clear_handler_connection r g =
    let key = handler_key r in
    let held = or_zero (lookup key g.client_connections) in
    record g {
      active_connections =
          if ltb 0 g.active_connections then g.active_connections - 1 else g.active_connections;
      client_connections =
          if leb held 1
          then delete key g.client_connections
          else insert key (held - 1) g.client_connections;
    }

-- RetryAfter of the errors that implement RetryAfterError.
abbrev handler_retry_after : Refusal → Option Duration
handler_retry_after (Refusal.rate_exceeded key wait) = some wait
handler_retry_after Refusal.active_cap_exceeded = none
handler_retry_after (Refusal.client_cap_exceeded key) = none

-- int(math.Ceil(wait.Seconds())) of a positive wait, as in the other package.
abbrev handler_seconds : ℕ → ℕ
handler_seconds n = (n + (second - 1)) / second

handler_header_of_wait : Duration → Option ℕ
handler_header_of_wait (ℤ.negsuc n) = none
handler_header_of_wait (pos n) =
    if n == 0 then none else if ltb (handler_seconds n) 1 then some 1 else some (handler_seconds n)

-- setRetryAfterHeader: the seconds of the Retry-After header, if it is set.
unfoldable pub set_retry_after_header : Refusal → Option ℕ
unfolding handler_header_of_wait
set_retry_after_header refusal = elim (handler_retry_after refusal) [
  | none ↦ none
  | some wait ↦ handler_header_of_wait wait
]
