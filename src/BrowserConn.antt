-- ===== src/BrowserConn.antt =====
-- pkg/wasm/dialer/websocket_conn.go: the net.Conn over a browser WebSocket. Callbacks of the browser
-- run only while the goroutine that reads is parked, so each method is one step up to the point where
-- Read parks. The growth of a slice's capacity is Go's own, and an argument.
pub mod Queue
pub mod Prefix
pub mod Stream
pub mod Store
pub mod Session
pub mod SessionFlow
pub mod SessionSteps
pub mod History
pub mod Write
pub mod Tests
use go_grpcbridge.Base.{
  ℕ, zero, suc, ◌+◌, ◌-◌, ◌/◌, ◌≡◌, Bool, true, false, not, ◌&&◌, ◌||◌, Option, none, some, List,
  [], ◌∷◌, ◌++◌, if◌then◌else◌, ltb, leb, ◌==◌, length, take, drop, get_elem?, set,
}

abbrev pub Bytes : Type 0
Bytes = List ℕ

-- limitConnectionQueuedMessages and limitConnectionQueuedBytes.
abbrev pub limit_connection_queued_messages : ℕ
limit_connection_queued_messages = 256

abbrev pub limit_connection_queued_bytes : ℕ
limit_connection_queued_bytes = 16777216

abbrev pub error_channel_capacity : ℕ
error_channel_capacity = 4

-- Errors on the channel: of an event without data in a buffer, net.ErrClosed, and the backlog error.
pub data ConnError : Type 0 where
  unsupported_data closed backlog_exceeded : ConnError

-- browserWebSocketConnection. A nil slot is the empty message; `signal` is the token of
-- incomingMessagesChannel; `close_calls` counts the calls of the browser's close.
pub record BrowserConn : Type 0 where
  pub read_message_buffer : Bytes
  pub queued_messages : List Bytes
  pub capacity : ℕ
  pub queued_bytes_size : ℕ
  pub shift_queue_start : ℕ
  pub signal : Bool
  pub incoming_errors : List ConnError
  pub is_closed : Bool
  pub has_handlers : Bool
  pub close_calls : ℕ

-- NewWebSocketConn.
unfoldable pub new_web_socket_conn : BrowserConn
new_web_socket_conn = record {
  read_message_buffer = [];
  queued_messages = [];
  capacity = 8;
  queued_bytes_size = 0;
  shift_queue_start = 0;
  signal = false;
  incoming_errors = [];
  is_closed = false;
  has_handlers = true;
  close_calls = 0;
}

-- clearQueuedMessagesHeadLocked.
pub clear_queued_messages_head : BrowserConn → BrowserConn
clear_queued_messages_head c =
    if c.shift_queue_start == 0
    then c
    else if ltb c.shift_queue_start (length c.queued_messages / 2)
        && ltb (length c.queued_messages) c.capacity
    then c
    else record c {
      queued_messages = drop c.shift_queue_start c.queued_messages;
      shift_queue_start = 0;
    }

-- storeConnectionError: dropped when the channel is full.
pub store_connection_error : ConnError → BrowserConn → BrowserConn
store_connection_error e c =
    if c.is_closed || leb error_channel_capacity (length c.incoming_errors)
    then c
    else record c { incoming_errors = c.incoming_errors ++ e ∷ [] }

-- closeChannels; `reading` says that a parked Read holds readMu.
pub close_channels : Bool → BrowserConn → BrowserConn
close_channels reading c = if c.is_closed then c else record c {
  is_closed = true;
  has_handlers = false;
  queued_messages = [];
  capacity = 0;
  shift_queue_start = 0;
  queued_bytes_size = 0;
  read_message_buffer = if reading then c.read_message_buffer else [];
}

-- Close.
pub close : Bool → BrowserConn → BrowserConn
close reading c =
    let done = close_channels reading c in record done { close_calls = done.close_calls + 1 }

-- handleConnectionQueueOverflow.
pub handle_connection_queue_overflow : Bool → BrowserConn → BrowserConn
handle_connection_queue_overflow reading c =
    let done = close_channels reading (store_connection_error backlog_exceeded c) in
    record done { close_calls = done.close_calls + 1 }

abbrev pub depth : BrowserConn → ℕ
depth c = length c.queued_messages - c.shift_queue_start

-- The test of storeIncomingMessage.
pub is_queue_overflow : ℕ → BrowserConn → Bool
is_queue_overflow size c =
    leb limit_connection_queued_messages (depth c)
    || ltb limit_connection_queued_bytes size
    || ltb (limit_connection_queued_bytes - size) c.queued_bytes_size

-- append: the capacity changes only when the slice is full.
pub append_message : (ℕ → ℕ) → Bytes → BrowserConn → BrowserConn
append_message grow message c = record c {
  queued_messages = c.queued_messages ++ message ∷ [];
  capacity = if ltb (length c.queued_messages) c.capacity then c.capacity else grow c.capacity;
  queued_bytes_size = c.queued_bytes_size + length message;
  signal = true;
}

-- storeIncomingMessage.
pub store_incoming_message : (ℕ → ℕ) → Bool → Bytes → BrowserConn → BrowserConn
unfolding append_message
store_incoming_message grow reading message c =
    if c.is_closed
    then c
    else if is_queue_overflow (length message) c
    then handle_connection_queue_overflow reading c
    else append_message grow message (clear_queued_messages_head c)

-- The handler of onmessage; `none` stands for data that is no object.
pub on_message : (ℕ → ℕ) → Bool → Option Bytes → BrowserConn → BrowserConn
on_message grow reading none c = store_connection_error unsupported_data c
on_message grow reading (some message) c = store_incoming_message grow reading message c

-- The handler of onerror.
pub on_error : BrowserConn → BrowserConn
on_error c = store_connection_error closed c

-- The handler of onclose.
pub on_close : Bool → BrowserConn → BrowserConn
on_close reading c = close_channels reading c

-- What stands at the head of the queue is cleared, and the head moves on.
pub advance : Bytes → BrowserConn → BrowserConn
advance message c = record c {
  queued_messages = set c.queued_messages c.shift_queue_start [];
  queued_bytes_size = c.queued_bytes_size - length message;
  shift_queue_start = c.shift_queue_start + 1;
}

pub after_shift : BrowserConn → BrowserConn
after_shift c =
    if leb (length c.queued_messages) c.shift_queue_start
    then record c { queued_messages = []; shift_queue_start = 0 }
    else clear_queued_messages_head c

-- shiftQueuedMessage.
pub shift_queued_message : BrowserConn → Option (Bytes × BrowserConn)
unfolding advance after_shift
shift_queued_message c = elim (get_elem? c.queued_messages c.shift_queue_start) [
  | none ↦ none
  | some message ↦ some (message, after_shift (advance message c))
]

pub data ReadOutcome : Type 0 where
  returned : Bytes → ReadOutcome
  failed : ConnError → ReadOutcome
  parked : ReadOutcome

pub take_error : List ConnError → BrowserConn → Option (ReadOutcome × BrowserConn)
take_error (e ∷ es) c = some (failed e, record c { incoming_errors = es })
take_error [] c = if c.is_closed then some (failed closed, c) else none

-- The loop of Read from its queue on. `choice` says which of two ready channels the select takes; a
-- round that takes the token goes round again. The channel holds one token, so two rounds are enough.
pub read_loop : ℕ → Bool → ℕ → BrowserConn → ReadOutcome × BrowserConn
read_loop zero choice size c = (parked, c)
read_loop (suc rounds) choice size c =
    let again = read_loop rounds choice size (record c { signal = false }) in
    elim (shift_queued_message c) [
      | some (message, rest) ↦ (
        returned (take size message),
        if ltb size (length message)
            then record rest { read_message_buffer = drop size message }
            else rest,
      )
      | none ↦ elim (take_error c.incoming_errors c) [
        | none ↦ if c.signal then again else (parked, c)
        | some answer ↦ if c.signal && choice then again else answer
      ]
    ]

-- Read into a destination of the given size.
pub read : Bool → ℕ → BrowserConn → ReadOutcome × BrowserConn
unfolding read_loop take_error
read choice size c =
    if c.is_closed
    then (failed closed, c)
    else if ltb 0 (length c.read_message_buffer)
    then (
      returned (take size c.read_message_buffer),
      record c { read_message_buffer = drop size c.read_message_buffer },
    )
    else read_loop 2 choice size c

-- A parked Read goes on at its select.
pub resume : Bool → ℕ → BrowserConn → ReadOutcome × BrowserConn
unfolding read_loop take_error
resume choice size c =
    let again = read_loop 2 choice size (record c { signal = false }) in
    elim (take_error c.incoming_errors c) [
      | none ↦ if c.signal then again else (parked, c)
      | some answer ↦ if c.signal && choice then again else answer
    ]
