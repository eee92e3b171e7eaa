-- ===== src/BrowserConn/Tests.antt =====
-- The browser connection at concrete inputs.
use go_grpcbridge.Base.{
  List, ◌+◌, ◌≤◌, ◌<◌, ◌≡◌, refl, ◌⊎◌, arith, true, false, some, [], ◌∷◌, ◌++◌, length,
}
use go_grpcbridge.BrowserConn.{
  BrowserConn, limit_connection_queued_messages, limit_connection_queued_bytes, new_web_socket_conn,
  store_incoming_message, read, returned,
}
use go_grpcbridge.BrowserConn.Queue.{queue, total_bytes, IsQueue}
use go_grpcbridge.BrowserConn.Prefix.{pending, Takes}
use go_grpcbridge.BrowserConn.Stream.{read-Takes}
use go_grpcbridge.BrowserConn.Store.{store-cases}
use go_grpcbridge.BrowserConn.Session.{Event, message_event, ask, wake, hang_up, run, opened, Flows}
use go_grpcbridge.BrowserConn.History.{run-opened-Flows}

-- Two messages are queued, behind a slot that was read.
abbrev fed_conn : BrowserConn
fed_conn = record new_web_socket_conn {
  queued_messages = [] ∷ (1 ∷ 2 ∷ 3 ∷ []) ∷ (4 ∷ []) ∷ [];
  capacity = 8;
  queued_bytes_size = 4;
  shift_queue_start = 1;
  signal = true;
  read_message_buffer = [];
  incoming_errors = [];
  is_closed = false;
  has_handlers = true;
  close_calls = 0;
}

fed-IsQueue : IsQueue fed_conn
unfolding total_bytes
fed-IsQueue = record { head = omega arith; counted = refl; few = omega arith; small = omega arith }

fed_conn_reads : (read false 2 fed_conn).0 ≡ returned (1 ∷ 2 ∷ [])
unfolding read go_grpcbridge.BrowserConn.shift_queued_message
fed_conn_reads = refl

read-Takes_example : Takes 2 fed_conn (read false 2 fed_conn)
read-Takes_example = read-Takes false 2 fed_conn fed-IsQueue

store-cases_example :
    ((length (queue fed_conn) < limit_connection_queued_messages)
      × (fed_conn.queued_bytes_size + 2 ≤ limit_connection_queued_bytes)
      × (pending (store_incoming_message (λ n. n + n) false (5 ∷ 6 ∷ []) fed_conn)
          ≡ pending fed_conn ++ 5 ∷ 6 ∷ [])
      × ((store_incoming_message (λ n. n + n) false (5 ∷ 6 ∷ []) fed_conn).is_closed ≡ false)
      × ((store_incoming_message (λ n. n + n) false (5 ∷ 6 ∷ []) fed_conn).signal ≡ true)
      × IsQueue (store_incoming_message (λ n. n + n) false (5 ∷ 6 ∷ []) fed_conn))
    ⊎ (((limit_connection_queued_messages ≤ length (queue fed_conn))
          ⊎ (limit_connection_queued_bytes < fed_conn.queued_bytes_size + 2))
        × (queue (store_incoming_message (λ n. n + n) false (5 ∷ 6 ∷ []) fed_conn) ≡ [])
        × ((store_incoming_message (λ n. n + n) false (5 ∷ 6 ∷ []) fed_conn).is_closed ≡ true)
        × ((store_incoming_message (λ n. n + n) false (5 ∷ 6 ∷ []) fed_conn).close_calls
            ≡ fed_conn.close_calls + 1))
store-cases_example = store-cases (λ n. n + n) false (5 ∷ 6 ∷ []) fed_conn refl fed-IsQueue

-- A Read parks, a message comes, the Read goes on, and the connection is closed with a byte pending.
abbrev events : List Event
events =
    ask false 2 ∷ message_event (some (1 ∷ 2 ∷ 3 ∷ [])) ∷ wake false ∷ hang_up ∷ ask false 2 ∷ []

run-opened-Flows_example : Flows (run (λ n. n + n) opened events)
run-opened-Flows_example = run-opened-Flows (λ n. n + n) events
