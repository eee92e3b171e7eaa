-- ===== src/BrowserConn/Write.antt =====
-- pkg/wasm/dialer/websocket_conn.go: Write, the addresses, and the deadlines, which do nothing.
use go_grpcbridge.Base.{ℕ, ◌≡◌, Bool, Option, none, some, if◌then◌else◌, length, Text, codes, arith}
use go_grpcbridge.BrowserConn.{Bytes, BrowserConn, ConnError, close, close_channels}

pub data WriteError : Type 0 where
  conn_closed send_failed : WriteError

-- What Write returns, and the binary message that the browser was given.
pub record Written : Type 0 where
  pub count : ℕ
  pub error : Option WriteError
  pub sent : Option Bytes

-- Write; the flag tells whether the browser's call throws, which the deferred function recovers.
pub write_message : Bool → Bytes → BrowserConn → Written
write_message throws source c =
    if c.is_closed
    then record { count = 0; error = some conn_closed; sent = none }
    else if throws
    then record { count = 0; error = some send_failed; sent = none }
    else record { count = length source; error = none; sent = some source }

-- SetDeadline, SetReadDeadline and SetWriteDeadline.
pub set_any_deadline : ℕ → BrowserConn → Option ConnError × BrowserConn
set_any_deadline deadline c = (none, c)

-- LocalAddr and RemoteAddr: the network and the address.
pub local_address : Text × Text
local_address = (codes "websocket", codes "local")

pub remote_address : Text × Text
remote_address = (codes "websocket", codes "remote")

-- After Close, and after the browser's own close, nothing is sent any more.
pub write_message-close :
    (reading throws : Bool) (source : Bytes) (c : BrowserConn)
    → ((write_message throws source (close reading c)).error ≡ some conn_closed)
      × ((write_message throws source (close_channels reading c)).sent ≡ none)
unfolding write_message close close_channels
write_message-close reading throws source c = ground arith
