-- ===== src/Listener.antt =====
-- pkg/grpctunnel/server_native.go: the listener that hands upgraded connections to grpc.Server.Serve,
-- as steps of its callers, and the wrapper that signals the close of a connection. A connection is
-- known by a number.
pub mod Laws
pub mod Tests
use go_grpcbridge.Base.{ℕ, suc, ◌+◌, ◌≡◌, ◌++◌, Bool, true, false, List, [], ◌∷◌, if◌then◌else◌}

-- bridgeConnListener with the calls of its methods: the connections that deliver was called with, those
-- that still wait in its select, the calls of Accept that wait, and what has returned: the connections
-- that Accept returned and deliver reported as handed over, those for which deliver reported false,
-- and the number of net.ErrClosed.
pub record Listener : Type 0 where
  pub closed : Bool
  pub given : List ℕ
  pub delivering : List ℕ
  pub accepting : ℕ
  pub accepted : List ℕ
  pub refused : List ℕ
  pub closed_errors : ℕ

-- newBridgeConnListener.
pub new_bridge_conn_listener : Listener
new_bridge_conn_listener = record {
  closed = false;
  given = [];
  delivering = [];
  accepting = 0;
  accepted = [];
  refused = [];
  closed_errors = 0;
}

-- deliver and Accept are called, and reach their select.
pub call_deliver : ℕ → Listener → Listener
call_deliver conn l = record l { given = conn ∷ l.given; delivering = conn ∷ l.delivering }

pub call_accept : Listener → Listener
call_accept l = record l { accepting = suc l.accepting }

-- The two selects meet on the channel without a buffer.
pub hand_over : List ℕ → ℕ → List ℕ → ℕ → Listener → Listener
hand_over before conn after waiting l = record l {
  delivering = before ++ after;
  accepting = waiting;
  accepted = conn ∷ l.accepted;
}

-- A select takes its case for the closed channel.
pub refuse_deliver : List ℕ → ℕ → List ℕ → Listener → Listener
refuse_deliver before conn after l = record l {
  delivering = before ++ after;
  refused = conn ∷ l.refused;
}

pub refuse_accept : ℕ → Listener → Listener
refuse_accept waiting l = record l { accepting = waiting; closed_errors = suc l.closed_errors }

-- Close; closing again changes nothing.
pub close_listener : Listener → Listener
close_listener l = record l { closed = true }

-- The steps of the callers.
pub data Step (l : Listener) : Listener → Type 0 where
  delivers : (conn : ℕ) → Step l (call_deliver conn l)
  accepts : Step l (call_accept l)
  meet :
      (before : List ℕ) (conn : ℕ) (after : List ℕ) (waiting : ℕ)
      → l.delivering ≡ before ++ conn ∷ after
      → l.accepting ≡ suc waiting
      → Step l (hand_over before conn after waiting l)
  refuses :
      (before : List ℕ) (conn : ℕ) (after : List ℕ)
      → l.closed ≡ true
      → l.delivering ≡ before ++ conn ∷ after
      → Step l (refuse_deliver before conn after l)
  fails :
      (waiting : ℕ) → l.closed ≡ true → l.accepting ≡ suc waiting → Step l (refuse_accept waiting l)
  closes : Step l (close_listener l)

-- The listeners that the calls reach.
pub data Reach : Listener → Type 0 where
  unused : Reach new_bridge_conn_listener
  after_step : {l l' : Listener} → Reach l → Step l l' → Reach l'

-- notifyCloseConn: how often the connection below was closed, and whether done is closed.
pub record NotifyCloseConn : Type 0 where
  pub conn_closes : ℕ
  pub done : Bool

pub new_notify_close_conn : NotifyCloseConn
new_notify_close_conn = record { conn_closes = 0; done = false }

pub notify_close : NotifyCloseConn → NotifyCloseConn
notify_close c = record { conn_closes = suc c.conn_closes; done = true }
