-- ===== src/Conn.antt =====
-- pkg/grpctunnel/conn.go and pkg/bridge/conn.go: a gorilla WebSocket as a net.Conn. The two adapters
-- differ in the errors they report and in their deadlines. What gorilla answers is an argument: `grant`
-- is the Read of a frame's reader, given the room and the bytes that are left. A method runs under its
-- mutex, so a call is one step.
pub mod Stream
pub mod Roundtrip
pub mod Tests
use go_grpcbridge.Base.{
  ℕ, ◌+◌, ◌≡◌, ◌++◌, Bool, true, false, ◌||◌, not, Option, none, some, List, [], ◌∷◌, if◌then◌else◌,
  ltb, take, drop, length,
}
use go_grpcbridge.Clock.{Time}

abbrev pub Bytes : Type 0
Bytes = List ℕ

pub data ConnError : Type 0 where
  end_of_file closed_pipe net_closed unexpected_type socket_error : ConnError

-- The errors of an adapter: of a closed Read, of a frame that is not binary, and of a closed Write.
pub record Errors : Type 0 where
  pub on_closed_read : ConnError
  pub on_text_frame : ConnError
  pub on_closed_write : ConnError

pub grpctunnel_errors : Errors
grpctunnel_errors = record {
  on_closed_read = end_of_file;
  on_text_frame = unexpected_type;
  on_closed_write = closed_pipe;
}

pub bridge_errors : Errors
bridge_errors = record {
  on_closed_read = net_closed;
  on_text_frame = net_closed;
  on_closed_write = net_closed;
}

-- What NextReader gives: a frame, or an error, which stays.
pub data Incoming : Type 0 where
  binary text : Bytes → Incoming
  broken : Incoming

-- What the reader of a frame gives: some bytes, with nil, io.EOF, or another error.
pub data Grant : Type 0 where
  more ends breaks : ℕ → Grant

-- webSocketConn, with what the peer will have sent and what was sent to it. `reader` holds the bytes of
-- the current frame that are left; `writing` says that a Write is in flight.
pub record Conn : Type 0 where
  pub has_socket : Bool
  pub is_closed : Bool
  pub reader : Option Bytes
  pub incoming : List Incoming
  pub sent : List Bytes
  pub close_calls : ℕ
  pub writing : Bool
  pub read_deadline : Time
  pub write_deadline : Time
  -- The deadline of the underlying net.Conn, where it was set past gorilla's field.
  pub direct_deadline : Option Time

pub data Outcome : Type 0 where
  returned : Bytes → Outcome
  failed : Bytes → ConnError → Outcome
  blocks : Outcome

-- newWebSocketConn and NewWebSocketConn; the flag says that the socket is not nil.
unfoldable pub new_web_socket_conn : Bool → List Incoming → Conn
new_web_socket_conn has_socket incoming = record {
  has_socket = has_socket;
  is_closed = false;
  reader = none;
  incoming = incoming;
  sent = [];
  close_calls = 0;
  writing = false;
  read_deadline = 0;
  write_deadline = 0;
  direct_deadline = none;
}

-- pkg/bridge starts closed on a nil socket.
pub new_handler_conn : Bool → List Incoming → Conn
unfolding new_web_socket_conn
new_handler_conn has_socket incoming = record (new_web_socket_conn has_socket incoming) {
  is_closed = not has_socket;
}

module _ (grant : ℕ → ℕ → Grant) (errors : Errors) where
  -- The Read of the current frame; `next` is the next round of the loop.
  take_grant : Bytes → Conn → Grant → Outcome × Conn → Outcome × Conn
  take_grant m c (more n) next = (returned (take n m), record c { reader = some (drop n m) })
  take_grant m c (ends n) next =
      if ltb 0 n then (returned (take n m), record c { reader = none }) else next
  take_grant m c (breaks n) next =
      (failed (take n m) socket_error, record c { reader = some (drop n m) })

  -- The loop of Read from NextReader on.
  read_frames : ℕ → List Incoming → Conn → Outcome × Conn
  unfolding take_grant
  read_frames size [] c = (blocks, record c { reader = none; incoming = [] })
  read_frames size (broken ∷ rest) c =
      (failed [] socket_error, record c { reader = none; incoming = broken ∷ rest })
  read_frames size (text m ∷ rest) c =
      (failed [] errors.on_text_frame, record c { reader = none; incoming = rest })
  read_frames size (binary m ∷ rest) c =
      take_grant m (record c { incoming = rest }) (grant size (length m)) (read_frames size rest c)

  read_open : ℕ → Option Bytes → Conn → Outcome × Conn
  unfolding read_frames
  read_open size none c = read_frames size c.incoming c
  read_open size (some m) c = take_grant m c (grant size (length m)) (read_frames size c.incoming c)

  -- Read.
  pub read : ℕ → Conn → Outcome × Conn
  unfolding read_open
  read size c =
      if c.is_closed || not c.has_socket
      then (failed [] errors.on_closed_read, c)
      else read_open size c.reader c

  -- Write: the number of bytes or the error; the flag says that WriteMessage succeeds.
  pub write : Bool → Bytes → Conn → Outcome × Conn
  write succeeds p c =
      if c.is_closed || not c.has_socket
      then (failed [] errors.on_closed_write, c)
      else if succeeds
      then (returned p, record c { sent = c.sent ++ p ∷ [] })
      else (failed [] socket_error, c)

-- Close.
pub close : Conn → Conn
close c = if c.is_closed then c else record c {
  is_closed = true;
  close_calls = if c.has_socket then c.close_calls + 1 else c.close_calls;
}

-- SetReadDeadline; the flag says that the underlying connection accepts a deadline.
pub set_read_deadline : Bool → Time → Conn → Option ConnError × Conn
set_read_deadline accepts t c =
    if not c.has_socket
    then (some net_closed, c)
    else if accepts
    then (none, record c { read_deadline = t })
    else (some socket_error, c)

-- SetWriteDeadline of pkg/grpctunnel; gorilla's own only stores the deadline, and the second flag says
-- that NetConn is not nil.
pub set_write_deadline : Bool → Bool → Time → Conn → Option ConnError × Conn
set_write_deadline accepts has_net_conn t c =
    if not c.has_socket
    then (some net_closed, c)
    else if not c.writing
    then (none, record c { write_deadline = t })
    else if not has_net_conn
    then (some net_closed, c)
    else if accepts
    then (none, record c { direct_deadline = some t })
    else (some socket_error, c)

-- SetDeadline of pkg/grpctunnel.
pub set_deadline : Bool → Bool → Time → Conn → Option ConnError × Conn
unfolding set_read_deadline set_write_deadline
set_deadline accepts has_net_conn t c =
    let (error, after) = set_read_deadline accepts t c in
    let later = set_write_deadline accepts has_net_conn t after in
    elim error [ some e ↦ (some e, after) | none ↦ later ]

-- SetWriteDeadline of pkg/bridge: gorilla's own, whether or not a Write is in flight. The copies of the
-- deadlines that the adapter keeps beside gorilla's are left out: nothing reads them.
pub set_handler_write_deadline : Time → Conn → Option ConnError × Conn
set_handler_write_deadline t c =
    if not c.has_socket then (some net_closed, c) else (none, record c { write_deadline = t })

-- SetDeadline of pkg/bridge.
pub set_handler_deadline : Bool → Time → Conn → Option ConnError × Conn
unfolding set_read_deadline set_handler_write_deadline
set_handler_deadline accepts t c =
    let (error, after) = set_read_deadline accepts t c in
    let later = set_handler_write_deadline t after in
    elim error [ some e ↦ (some e, after) | none ↦ later ]
