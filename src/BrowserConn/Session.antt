-- ===== src/BrowserConn/Session.antt =====
-- The history of one connection: the browser's events, and the calls of one reader.
use go_grpcbridge.Base.{
  ℕ, ◌≡◌, Bool, true, false, Option, none, some, List, [], ◌∷◌, ◌++◌, if◌then◌else◌,
}
use go_grpcbridge.BrowserConn.{
  Bytes, BrowserConn, new_web_socket_conn, close, ReadOutcome, returned, failed, parked, read,
  resume, on_message, on_error, on_close,
}
use go_grpcbridge.BrowserConn.Queue.{queue, IsQueue}
use go_grpcbridge.BrowserConn.Prefix.{pending}

-- The connection, the size that a parked Read waits for, and the bytes that came and went.
pub record Session : Type 0 where
  pub conn : BrowserConn
  pub waiting : Option ℕ
  pub delivered : Bytes
  pub received : Bytes

pub data Event : Type 0 where
  message_event : Option Bytes → Event
  error_event close_event hang_up : Event
  ask : Bool → ℕ → Event
  wake : Bool → Event

abbrev pub is_waiting : Option ℕ → Bool
is_waiting none = false
is_waiting (some size) = true

abbrev pub message_bytes : Option Bytes → Bytes
message_bytes none = []
message_bytes (some m) = m

-- What a Read of the given size leaves: it may be parked.
unfoldable pub settle : ℕ → Session → ReadOutcome × BrowserConn → Session
settle size s (returned b, c) = record s { conn = c; waiting = none; received = s.received ++ b }
settle size s (failed e, c) = record s { conn = c; waiting = none }
settle size s (parked, c) = record s { conn = c; waiting = some size }

-- A call of Read while another holds readMu waits for it, and only a parked Read can wake.
unfoldable pub ask_step : Bool → ℕ → Session → Option ℕ → Session
unfolding settle
ask_step choice size s none = settle size s (read choice size s.conn)
ask_step choice size s (some other) = s

unfoldable pub wake_step : Bool → Session → Option ℕ → Session
unfolding settle
wake_step choice s none = s
wake_step choice s (some size) = settle size s (resume choice size s.conn)

-- A closed connection has no handlers left, so that no event of the browser reaches it.
unfoldable pub step : (ℕ → ℕ) → Session → Event → Session
unfolding ask_step wake_step
step grow s (message_event payload) = if s.conn.is_closed then s else record s {
  conn = on_message grow (is_waiting s.waiting) payload s.conn;
  delivered = s.delivered ++ message_bytes payload;
}
step grow s error_event = if s.conn.is_closed then s else record s { conn = on_error s.conn }
step grow s close_event =
    if s.conn.is_closed then s else record s { conn = on_close (is_waiting s.waiting) s.conn }
step grow s hang_up = record s { conn = close (is_waiting s.waiting) s.conn }
step grow s (ask choice size) = ask_step choice size s s.waiting
step grow s (wake choice) = wake_step choice s s.waiting

unfoldable pub run : (ℕ → ℕ) → Session → List Event → Session
run grow s [] = s
run grow s (e ∷ es) = run grow (step grow s e) es

unfoldable pub opened : Session
opened = record { conn = new_web_socket_conn; waiting = none; delivered = []; received = [] }

-- While the connection is open, what was received and what is pending is what was delivered; once it is
-- closed, nothing is pending, and what was received is a prefix of it.
pub record Flows (s : Session) : Type 0 where
  pub sound : IsQueue s.conn
  pub waits :
      is_waiting s.waiting ≡ true
      → (s.conn.read_message_buffer ≡ []) × (s.conn.signal ≡ false → queue s.conn ≡ [])
  pub open_flow : s.conn.is_closed ≡ false → s.received ++ pending s.conn ≡ s.delivered
  pub closed_empty : s.conn.is_closed ≡ true → pending s.conn ≡ []
  pub prefix : (rest : Bytes) × (s.received ++ rest ≡ s.delivered)
