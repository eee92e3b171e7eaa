-- ===== src/BrowserConn/History.antt =====
-- The bytes of a whole session.
use go_grpcbridge.Base.{ℕ, refl, List, [], ◌∷◌, arith}
use go_grpcbridge.BrowserConn.{new_web_socket_conn}
use go_grpcbridge.BrowserConn.Queue.{total_bytes}
use go_grpcbridge.BrowserConn.Prefix.{joined, pending}
use go_grpcbridge.BrowserConn.Session.{Session, Event, step, run, opened, Flows}
use go_grpcbridge.BrowserConn.SessionSteps.{step-Flows}

run-Flows : (grow : ℕ → ℕ) (es : List Event) (s : Session) → Flows s → Flows (run grow s es)
unfolding run
run-Flows grow [] s v = v
run-Flows grow (e ∷ es) s v = run-Flows grow es (step grow s e) (step-Flows grow e s v)

-- Whatever the browser delivers and in whatever order it interleaves with the calls of one reader,
-- the bytes that Read returned are the first bytes that were delivered, in order and none of them
-- twice; while the connection is open, those that it has not returned yet are exactly the pending
-- ones, and once it is closed nothing is pending.
pub run-opened-Flows : (grow : ℕ → ℕ) (es : List Event) → Flows (run grow opened es)
unfolding opened new_web_socket_conn total_bytes pending joined
run-opened-Flows grow es = run-Flows grow es opened (record {
  sound = record { head = omega arith; counted = refl; few = omega arith; small = omega arith };
  waits = λ h. absurd (ground arith);
  open_flow = λ h. refl;
  closed_empty = λ h. absurd (ground arith);
  prefix = ([], refl);
})
