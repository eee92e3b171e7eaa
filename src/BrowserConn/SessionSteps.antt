-- ===== src/BrowserConn/SessionSteps.antt =====
-- Every event of a session keeps the flow of bytes.
use go_grpcbridge.Base.{
  ℕ, ◌≡◌, refl, sym, ap, inl, inr, Bool, true, false, Option, none, some, [], ◌++◌, arith,
  if◌then◌else◌, Bool-cases,
}
use mathlib.Core.List.{append-nil}
use mathlib.Core.Path.{subst}
use go_grpcbridge.BrowserConn.{
  Bytes, BrowserConn, ConnError, store_connection_error, close_channels, close, on_message,
  on_error, on_close, closed, unsupported_data,
}
use go_grpcbridge.BrowserConn.Prefix.{pending, refilled-IsQueue}
use go_grpcbridge.BrowserConn.Stream.{read-Takes, resume-Takes}
use go_grpcbridge.BrowserConn.Session.{
  Session, Event, message_event, error_event, close_event, hang_up, ask, wake, is_waiting,
  message_bytes, ask_step, wake_step, step, Flows,
}
use go_grpcbridge.BrowserConn.SessionFlow.{
  settle-Flows, stored-Flows, store_connection_error-eq, closed-Flows, close_channels-lem,
}

-- Either of two sessions that flow.
Flows-if :
    (b : Bool) (x y : Session)
    → (b ≡ true → Flows x)
    → (b ≡ false → Flows y)
    → Flows (if b then x else y)
Flows-if true x y f g = f refl
Flows-if false x y f g = g refl

-- An error that is noted changes no byte.
noted-Flows :
    (e : ConnError) (s : Session)
    → Flows s
    → Flows (record s { conn = store_connection_error e s.conn })
unfolding pending
noted-Flows e s v =
    let kept = store_connection_error-eq e s.conn in
    subst (λ c. Flows (record s { conn = c })) (sym kept.1)
      (record {
        sound = refilled-IsQueue s.conn s.conn.signal kept.0 s.conn.read_message_buffer v.sound;
        waits = v.waits;
        open_flow = v.open_flow;
        closed_empty = v.closed_empty;
        prefix = v.prefix;
      })

message-Flows :
    (grow : ℕ → ℕ) (payload : Option Bytes) (s : Session)
    → s.conn.is_closed ≡ false
    → Flows s
    → Flows (record s {
      conn = on_message grow (is_waiting s.waiting) payload s.conn;
      delivered = s.delivered ++ message_bytes payload;
    })
unfolding on_message
message-Flows grow (some m) s running v = stored-Flows grow m s running v
message-Flows grow none s running v = rw (append-nil s.delivered) (noted-Flows unsupported_data s v)

recounted-Flows :
    (calls : ℕ) (s : Session)
    → Flows s
    → Flows (record s { conn = record s.conn { close_calls = calls } })
unfolding pending
recounted-Flows calls s v = record {
  sound = record {
    head = v.sound.head;
    counted = v.sound.counted;
    few = v.sound.few;
    small = v.sound.small;
  };
  waits = v.waits;
  open_flow = v.open_flow;
  closed_empty = v.closed_empty;
  prefix = v.prefix;
}

close_channels_again :
    (reading : Bool) (c : BrowserConn) → c.is_closed ≡ true → close_channels reading c ≡ c
unfolding close_channels
close_channels_again reading c done = ground arith

-- Closing the connection, or closing it again.
closing-Flows :
    (calls : ℕ) (s : Session)
    → Flows s
    → Flows (record s {
      conn = record (close_channels (is_waiting s.waiting) s.conn) { close_calls = calls };
    })
closing-Flows calls s v =
    recounted-Flows calls (record s { conn = close_channels (is_waiting s.waiting) s.conn })
      (elim (Bool-cases s.conn.is_closed) [
        | inl done ↦
            subst (λ c. Flows (record s { conn = c }))
              (sym (close_channels_again (is_waiting s.waiting) s.conn done)) v
        | inr running ↦
            subst
              (λ l.
                Flows
                  (record s { conn = close_channels (is_waiting s.waiting) s.conn; delivered = l }))
              (append-nil s.delivered)
              (closed-Flows s _ [] v
                (close_channels-lem (is_waiting s.waiting) s.conn running (λ h. (v.waits h).0)))
      ])

ask-Flows :
    (choice : Bool) (size : ℕ) (s : Session) (w : Option ℕ)
    → Flows s
    → Flows (ask_step choice size s w)
unfolding ask_step
ask-Flows choice size s none v = settle-Flows size s _ (read-Takes choice size s.conn v.sound) v
ask-Flows choice size s (some other) v = v

wake-Flows :
    (choice : Bool) (s : Session) (w : Option ℕ)
    → s.waiting ≡ w
    → Flows s
    → Flows (wake_step choice s w)
unfolding wake_step
wake-Flows choice s none e v = v
wake-Flows choice s (some size) e v =
    let (empty, quiet) = v.waits (ap is_waiting e) in
    settle-Flows size s _ (resume-Takes choice size s.conn v.sound empty quiet) v

pub step-Flows : (grow : ℕ → ℕ) (e : Event) (s : Session) → Flows s → Flows (step grow s e)
unfolding step on_error on_close close
step-Flows grow (message_event payload) s v =
    Flows-if s.conn.is_closed _ _ (λ _. v) (λ running. message-Flows grow payload s running v)
step-Flows grow error_event s v =
    Flows-if s.conn.is_closed _ _ (λ _. v) (λ _. noted-Flows closed s v)
step-Flows grow close_event s v = Flows-if s.conn.is_closed _ _ (λ _. v) (λ _. closing-Flows _ s v)
step-Flows grow hang_up s v = closing-Flows _ s v
step-Flows grow (ask choice size) s v = ask-Flows choice size s s.waiting v
step-Flows grow (wake choice) s v = wake-Flows choice s s.waiting refl v
