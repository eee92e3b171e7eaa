-- ===== src/BrowserConn/Store.antt =====
-- A message that the browser delivers: at the end of the stream, or the end of the connection.
use go_grpcbridge.Base.{
  ℕ, ◌+◌, ◌≤◌, ◌<◌, ◌≡◌, sym, ap, ap₂, ◌∙◌, ◌⊎◌, inl, inr, Bool, true, false, [], ◌∷◌, ◌++◌, arith,
  length, length-drop, Bool-cases,
}
use mathlib.Core.List.{append_assoc, append-nil}
use go_grpcbridge.BrowserConn.{
  Bytes, BrowserConn, limit_connection_queued_messages, limit_connection_queued_bytes,
  clear_queued_messages_head, store_connection_error, close_channels,
  handle_connection_queue_overflow, is_queue_overflow, append_message, store_incoming_message,
}
use go_grpcbridge.BrowserConn.Queue.{
  queue, IsQueue, clear_queued_messages_head-queue, clear_queued_messages_head-IsQueue,
  append_message-queue, append_message-IsQueue,
}
use go_grpcbridge.BrowserConn.Prefix.{joined, joined-append, pending}

pub store-eq :
    (grow : ℕ → ℕ) (reading : Bool) (m : Bytes) (c : BrowserConn)
    → c.is_closed ≡ false
    → (is_queue_overflow (length m) c ≡ true
        → store_incoming_message grow reading m c ≡ handle_connection_queue_overflow reading c)
      × (is_queue_overflow (length m) c ≡ false
          → store_incoming_message grow reading m c
            ≡ append_message grow m (clear_queued_messages_head c))
unfolding store_incoming_message
store-eq grow reading m c running = ground arith

overflow-lem :
    (reading : Bool) (c : BrowserConn)
    → c.is_closed ≡ false
    → let d = handle_connection_queue_overflow reading c in
      (queue d ≡ []) × (d.is_closed ≡ true) × (d.close_calls ≡ c.close_calls + 1)
unfolding handle_connection_queue_overflow store_connection_error close_channels
overflow-lem reading c running = ground arith

pub is_queue_overflow-cases :
    (size : ℕ) (c : BrowserConn)
    → (is_queue_overflow size c ≡ true
        → (limit_connection_queued_messages ≤ length (queue c))
          ⊎ (limit_connection_queued_bytes < c.queued_bytes_size + size))
      × (is_queue_overflow size c ≡ false
          → (length (queue c) < limit_connection_queued_messages)
            × (c.queued_bytes_size + size ≤ limit_connection_queued_bytes))
unfolding is_queue_overflow
is_queue_overflow-cases size c = ground (arith, length-drop c.shift_queue_start c.queued_messages)

pub append_cleared-frame :
    (grow : ℕ → ℕ) (m : Bytes) (c : BrowserConn)
    → let d = append_message grow m (clear_queued_messages_head c) in
      (d.read_message_buffer ≡ c.read_message_buffer)
      × (d.is_closed ≡ c.is_closed)
      × (d.signal ≡ true)
unfolding append_message clear_queued_messages_head
append_cleared-frame grow m c = ground arith

joined_one : (m : Bytes) → joined (m ∷ []) ≡ m
unfolding joined
joined_one m = append-nil m

pending_append :
    (c d : BrowserConn) (m : Bytes)
    → d.read_message_buffer ≡ c.read_message_buffer
    → queue d ≡ queue c ++ m ∷ []
    → pending d ≡ pending c ++ m
unfolding pending
pending_append c d m buffer end =
    ap₂ (λ b q. b ++ joined q) buffer end
    ∙ ap (λ l. c.read_message_buffer ++ l)
        (joined-append (queue c) (m ∷ []) ∙ ap (λ l. joined (queue c) ++ l) (joined_one m))
    ∙ sym (append_assoc c.read_message_buffer (joined (queue c)) m)

pub append_cleared-lem :
    (grow : ℕ → ℕ) (m : Bytes) (c : BrowserConn)
    → c.is_closed ≡ false
    → IsQueue c
    → length (queue c) < limit_connection_queued_messages
    → c.queued_bytes_size + length m ≤ limit_connection_queued_bytes
    → let d = append_message grow m (clear_queued_messages_head c) in
      (pending d ≡ pending c ++ m) × (d.is_closed ≡ false) × (d.signal ≡ true) × IsQueue d
append_cleared-lem grow m c running v few small =
    let cleared = clear_queued_messages_head c in
    let (same, bytes, _) = clear_queued_messages_head-queue c in
    let w = clear_queued_messages_head-IsQueue c v in
    let (buffer, open_too, signalled) = append_cleared-frame grow m c in
    (
      pending_append c (append_message grow m cleared) m buffer
          (append_message-queue grow m cleared w ∙ ap (λ q. q ++ m ∷ []) same),
      open_too ∙ running,
      signalled,
      append_message-IsQueue grow m cleared w (omega (arith, ap length same))
          (omega (arith, bytes)),
    )

-- A delivered message, while the connection is open and the queue sound: it goes to the end of the
-- stream, or, when it would exceed a limit of the queue, the queue is dropped and the connection
-- closed.
pub store-cases :
    (grow : ℕ → ℕ) (reading : Bool) (m : Bytes) (c : BrowserConn)
    → c.is_closed ≡ false
    → IsQueue c
    → let d = store_incoming_message grow reading m c in
      ((length (queue c) < limit_connection_queued_messages)
        × (c.queued_bytes_size + length m ≤ limit_connection_queued_bytes)
        × (pending d ≡ pending c ++ m)
        × (d.is_closed ≡ false)
        × (d.signal ≡ true)
        × IsQueue d)
      ⊎ (((limit_connection_queued_messages ≤ length (queue c))
            ⊎ (limit_connection_queued_bytes < c.queued_bytes_size + length m))
          × (queue d ≡ [])
          × (d.is_closed ≡ true)
          × (d.close_calls ≡ c.close_calls + 1))
store-cases grow reading m c running v =
    let (on_overflow, on_room) = store-eq grow reading m c running in
    let (full, free) = is_queue_overflow-cases (length m) c in
    elim (Bool-cases (is_queue_overflow (length m) c)) [
      | inl over ↦
          let (empty, done, calls) = overflow-lem reading c running in
          rw (on_overflow over) (inr (full over, empty, done, calls))
      | inr room ↦
          let (few, small) = free room in
          let (end, still, signalled, sound) = append_cleared-lem grow m c running v few small in
          rw (on_room room) (inl (few, small, end, still, signalled, sound))
    ]
