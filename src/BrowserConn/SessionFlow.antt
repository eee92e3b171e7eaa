-- ===== src/BrowserConn/SessionFlow.antt =====
-- A delivered message and an answer of Read keep the flow of bytes.
use go_grpcbridge.Base.{
  ℕ, ◌≡◌, refl, sym, ap, ap₂, ◌∙◌, inl, inr, Bool, true, false, List, [], ◌∷◌, ◌++◌, arith,
  if◌then◌else◌, Bool-cases, length, leb, ◌||◌,
}
use mathlib.Core.List.{append_assoc, append-nil}
use go_grpcbridge.BrowserConn.{
  Bytes, BrowserConn, ConnError, store_connection_error, close_channels, store_incoming_message,
  handle_connection_queue_overflow, ReadOutcome, returned, failed, parked, is_queue_overflow,
  error_channel_capacity,
}
use go_grpcbridge.BrowserConn.Queue.{queue, total_bytes, IsQueue}
use go_grpcbridge.BrowserConn.Prefix.{joined, pending, bytes_of, Takes}
use go_grpcbridge.BrowserConn.Store.{
  store-eq, is_queue_overflow-cases, append_cleared-frame, append_cleared-lem,
}
use go_grpcbridge.BrowserConn.Session.{Session, is_waiting, settle, Flows}

-- Closing drops what is pending, a parked Read having nothing in its buffer.
pub close_channels-lem :
    (reading : Bool) (c : BrowserConn)
    → c.is_closed ≡ false
    → (reading ≡ true → c.read_message_buffer ≡ [])
    → let d = close_channels reading c in
      (d.is_closed ≡ true) × (d.read_message_buffer ≡ []) × (queue d ≡ []) × IsQueue d
unfolding close_channels total_bytes
close_channels-lem reading c running idle = ground (arith, Bool-cases reading)

pub pending_nil : (c : BrowserConn) → c.read_message_buffer ≡ [] → queue c ≡ [] → pending c ≡ []
unfolding pending joined
pending_nil c b q = ap₂ (λ x y. x ++ joined y) b q

append_nothing : (xs ys : Bytes) → xs ++ ys ≡ [] → (xs ≡ []) × (ys ≡ [])
append_nothing [] ys h = (refl, h)
append_nothing (x ∷ xs) ys h = absurd (ground arith)

pub store_connection_error-eq :
    (e : ConnError) (c : BrowserConn)
    → (es : List ConnError) × (store_connection_error e c ≡ record c { incoming_errors = es })
unfolding store_connection_error
store_connection_error-eq e c =
    elim (Bool-cases (c.is_closed || leb error_channel_capacity (length c.incoming_errors))) [
      | inl dropped ↦ (
        c.incoming_errors,
        ap (λ b. if b then c else record c { incoming_errors = c.incoming_errors ++ e ∷ [] })
            dropped,
      )
      | inr room ↦ (
        c.incoming_errors ++ e ∷ [],
        ap (λ b. if b then c else record c { incoming_errors = c.incoming_errors ++ e ∷ [] }) room,
      )
    ]

-- What an answer of Read does to the flow, whatever waits afterwards.
taken_flow :
    (size : ℕ) (s : Session) (answer : ReadOutcome × BrowserConn)
    → Takes size s.conn answer
    → Flows s
    → (answer.1.is_closed ≡ false
        → (s.received ++ bytes_of answer.0) ++ pending answer.1 ≡ s.delivered)
      × (answer.1.is_closed ≡ true → pending answer.1 ≡ [])
      × ((rest : Bytes) × ((s.received ++ bytes_of answer.0) ++ rest ≡ s.delivered))
taken_flow size s answer t v =
    let onward : s.conn.is_closed ≡ false
        → (s.received ++ bytes_of answer.0) ++ pending answer.1 ≡ s.delivered =
      λ h.
        append_assoc s.received (bytes_of answer.0) (pending answer.1)
        ∙ ap (λ l. s.received ++ l) t.prefix
        ∙ v.open_flow h in
    let over : s.conn.is_closed ≡ true → (bytes_of answer.0 ≡ []) × (pending answer.1 ≡ []) =
      λ h. append_nothing (bytes_of answer.0) (pending answer.1) (t.prefix ∙ v.closed_empty h) in
    (
      λ h. onward (sym t.still_open ∙ h),
      λ h. (over (sym t.still_open ∙ h)).1,
      elim (Bool-cases s.conn.is_closed) [
        | inl done ↦ (
          v.prefix.0,
          ap (λ b. (s.received ++ b) ++ v.prefix.0) (over done).0
              ∙ ap (λ l. l ++ v.prefix.0) (append-nil s.received)
              ∙ v.prefix.1,
        )
        | inr running ↦ (pending answer.1, onward running)
      ],
    )

pub settle-Flows :
    (size : ℕ) (s : Session) (answer : ReadOutcome × BrowserConn)
    → Takes size s.conn answer
    → Flows s
    → Flows (settle size s answer)
unfolding settle
settle-Flows size s (returned b, c) t v =
    let (onward, over, rest) = taken_flow size s (returned b, c) t v in
    record {
      sound = t.sound;
      waits = λ h. absurd (ground arith);
      open_flow = onward;
      closed_empty = over;
      prefix = rest;
    }
settle-Flows size s (failed e, c) t v =
    let (onward, over, rest) = taken_flow size s (failed e, c) t v in
    record {
      sound = t.sound;
      waits = λ h. absurd (ground arith);
      open_flow = λ h. ap (λ l. l ++ pending c) (sym (append-nil s.received)) ∙ onward h;
      closed_empty = over;
      prefix = v.prefix;
    }
settle-Flows size s (parked, c) t v =
    let (onward, over, rest) = taken_flow size s (parked, c) t v in
    let (empty, nothing, no_errors, running) = t.waits refl in
    record {
      sound = t.sound;
      waits = λ h. (empty, λ _. nothing);
      open_flow = λ h. ap (λ l. l ++ pending c) (sym (append-nil s.received)) ∙ onward h;
      closed_empty = over;
      prefix = v.prefix;
    }

-- A connection that was just closed, with `more` delivered last.
pub closed-Flows :
    (s : Session) (d : BrowserConn) (more : Bytes)
    → Flows s
    → (d.is_closed ≡ true) × (d.read_message_buffer ≡ []) × (queue d ≡ []) × IsQueue d
    → Flows (record s { conn = d; delivered = s.delivered ++ more })
closed-Flows s d more v (done, empty, nothing, sound) = record {
  sound = sound;
  waits = λ h. (empty, λ _. nothing);
  open_flow = λ h. absurd (ground arith);
  closed_empty = λ h. pending_nil d empty nothing;
  prefix = (
    v.prefix.0 ++ more,
    sym (append_assoc s.received v.prefix.0 more) ∙ ap (λ l. l ++ more) v.prefix.1,
  );
}

overflow-closed :
    (reading : Bool) (c : BrowserConn)
    → c.is_closed ≡ false
    → (reading ≡ true → c.read_message_buffer ≡ [])
    → let d = handle_connection_queue_overflow reading c in
      (d.is_closed ≡ true) × (d.read_message_buffer ≡ []) × (queue d ≡ []) × IsQueue d
unfolding handle_connection_queue_overflow store_connection_error close_channels total_bytes
overflow-closed reading c running idle = ground (arith, Bool-cases reading)

pub stored-Flows :
    (grow : ℕ → ℕ) (m : Bytes) (s : Session)
    → s.conn.is_closed ≡ false
    → Flows s
    → Flows (record s {
      conn = store_incoming_message grow (is_waiting s.waiting) m s.conn;
      delivered = s.delivered ++ m;
    })
stored-Flows grow m s running v =
    let reading = is_waiting s.waiting in
    let (on_overflow, on_room) = store-eq grow reading m s.conn running in
    let (full, free) = is_queue_overflow-cases (length m) s.conn in
    elim (Bool-cases (is_queue_overflow (length m) s.conn)) [
      | inl over ↦
          rw (on_overflow over)
            (closed-Flows s _ m v (overflow-closed reading s.conn running (λ h. (v.waits h).0)))
      | inr room ↦
          let (few, small) = free room in
          let (end, still, signalled, sound) =
            append_cleared-lem grow m s.conn running v.sound few small in
          let (buffer, _, _) = append_cleared-frame grow m s.conn in
          rw (on_room room) (record {
            sound = sound;
            waits = λ h. (buffer ∙ (v.waits h).0, λ off. absurd (ground arith));
            open_flow = λ h.
                ap (λ l. s.received ++ l) end
                ∙ sym (append_assoc s.received (pending s.conn) m)
                ∙ ap (λ l. l ++ m) (v.open_flow running);
            closed_empty = λ h. absurd (ground arith);
            prefix = (
              v.prefix.0 ++ m,
              sym (append_assoc s.received v.prefix.0 m) ∙ ap (λ l. l ++ m) v.prefix.1,
            );
          })
    ]
