-- ===== src/Conn/Tests.antt =====
-- The adapter at concrete inputs.
use go_grpcbridge.Base.{
  ℕ, ◌≡◌, ◌++◌, arith, true, false, none, List, [], ◌∷◌, if◌then◌else◌, leb, map,
}
use go_grpcbridge.Conn.{
  Grant, more, ends, Conn, Incoming, binary, grpctunnel_errors, new_web_socket_conn,
}
use go_grpcbridge.Conn.Stream.{IsReader, pending}
use go_grpcbridge.Conn.Roundtrip.{joined, write_all, read_all, read_all-write_all}

-- A reader that gives all it has, with io.EOF, where there is room, and fills the room otherwise.
abbrev grant_all : ℕ → ℕ → Grant
grant_all size left = if leb left size then ends left else more size

grant_all-IsReader : IsReader grant_all
grant_all-IsReader = record {
  more_fits = λ size left n e. ground arith;
  ends_fits = λ size left n e. ground arith;
  breaks_fits = λ size left n e. ground arith;
}

-- An empty frame stands before the bytes.
abbrev frames : List Incoming
frames = binary [] ∷ binary (1 ∷ 2 ∷ 3 ∷ []) ∷ []

abbrev conn : Conn
conn = record {
  has_socket = true;
  is_closed = false;
  reader = none;
  incoming = frames;
  sent = [];
  close_calls = 0;
  writing = true;
  read_deadline = 0;
  write_deadline = 0;
  direct_deadline = none;
}

read_all-write_all_example :
    let sent =
      (write_all grant_all grpctunnel_errors
        ((1 ∷ 2 ∷ []) ∷ [] ∷ (3 ∷ []) ∷ [])
        (new_web_socket_conn true [])).sent in
    let answer =
      read_all grant_all grpctunnel_errors
        (1 ∷ 5 ∷ [])
        (new_web_socket_conn true (map binary sent)) in
    answer.0 ++ pending answer.1 ≡ joined ((1 ∷ 2 ∷ []) ∷ [] ∷ (3 ∷ []) ∷ [])
read_all-write_all_example =
    read_all-write_all grant_all grpctunnel_errors ((1 ∷ 2 ∷ []) ∷ [] ∷ (3 ∷ []) ∷ []) (1 ∷ 5 ∷ [])
      grant_all-IsReader

abbrev busy : Conn
busy = record conn { writing = true }
