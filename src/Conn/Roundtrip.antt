-- ===== src/Conn/Roundtrip.antt =====
-- One side writes, the other reads; and the deadlines of pkg/grpctunnel.
use go_grpcbridge.Base.{
  ℕ, ◌≡◌, ◌++◌, refl, sym, ap, ◌∙◌, inl, inr, Bool, true, false, not, ◌&&◌, none, some, List, [],
  ◌∷◌, if◌then◌else◌, arith, map,
}
use mathlib.Core.List.{append_assoc, append-nil}
use go_grpcbridge.Clock.{Time}
use go_grpcbridge.Conn.{
  Bytes, Errors, Incoming, binary, Grant, Conn, new_web_socket_conn, read, write, set_read_deadline,
  set_write_deadline, set_deadline,
}
use go_grpcbridge.Conn.Stream.{IsReader, payload, pending, bytes_of, read-Takes_payload}

pub joined : List Bytes → Bytes
joined [] = []
joined (m ∷ ms) = m ++ joined ms

payload-map : (ps : List Bytes) → payload (map binary ps) ≡ joined ps
unfolding payload joined
payload-map [] = refl
payload-map (p ∷ ps) = ap (λ l. p ++ l) (payload-map ps)

module _ (grant : ℕ → ℕ → Grant) (errors : Errors) where
  -- Writes that succeed, one after the other.
  pub write_all : List Bytes → Conn → Conn
  write_all [] c = c
  write_all (p ∷ ps) c = write_all ps (write grant errors true p c).1

  -- Reads of the given sizes, one after the other: the bytes that they returned.
  pub read_all : List ℕ → Conn → Bytes × Conn
  read_all [] c = ([], c)
  read_all (size ∷ sizes) c =
      let answer = read grant errors size c in
      let rest = read_all sizes answer.1 in (bytes_of answer.0 ++ rest.0, rest.1)

  write_all-sent :
      (ps : List Bytes) (c : Conn)
      → c.is_closed ≡ false
      → c.has_socket ≡ true
      → (write_all ps c).sent ≡ c.sent ++ ps
  unfolding write_all write
  write_all-sent [] c running there = sym (append-nil c.sent)
  write_all-sent (p ∷ ps) c running there =
      ap (λ d. (write_all ps d).sent) (written p c running there)
      ∙ write_all-sent ps (record c { sent = c.sent ++ p ∷ [] }) running there
      ∙ append_assoc c.sent (p ∷ []) ps
    where
      written :
          (q : Bytes) (d : Conn)
          → d.is_closed ≡ false
          → d.has_socket ≡ true
          → (write grant errors true q d).1 ≡ record d { sent = d.sent ++ q ∷ [] }
      written q d r t = ground arith

  module _ (reader_law : IsReader grant) where
    read-pending :
        (size : ℕ) (c : Conn)
        → bytes_of (read grant errors size c).0 ++ pending (read grant errors size c).1 ≡ pending c
    read-pending size c = elim (read-Takes_payload grant errors reader_law size c) [
      | inl (gone, answer) ↦ ap (λ a. bytes_of a.0 ++ pending a.1) answer
      | inr (there, takes) ↦ takes.prefix
    ]

    read_all-pending :
        (sizes : List ℕ) (c : Conn)
        → (read_all sizes c).0 ++ pending (read_all sizes c).1 ≡ pending c
    unfolding read_all
    read_all-pending [] c = refl
    read_all-pending (size ∷ sizes) c =
        let answer = read grant errors size c in
        append_assoc (bytes_of answer.0) (read_all sizes answer.1).0 _
        ∙ ap (λ l. bytes_of answer.0 ++ l) (read_all-pending sizes answer.1)
        ∙ read-pending size c

-- What one side writes, as one frame a Write, the other side reads back as one stream: whatever
-- the sizes of its Reads and of what gorilla gives, the bytes read so far and those pending are
-- those written; the reader of a frame keeps the contract of io.Reader.
pub read_all-write_all :
    (grant : ℕ → ℕ → Grant) (errors : Errors) (ps : List Bytes) (sizes : List ℕ)
    → IsReader grant
    → let sent = (write_all grant errors ps (new_web_socket_conn true [])).sent in
      let answer = read_all grant errors sizes (new_web_socket_conn true (map binary sent)) in
      answer.0 ++ pending answer.1 ≡ joined ps
read_all-write_all grant errors ps sizes reader_law =
    let sent = (write_all grant errors ps (new_web_socket_conn true [])).sent in
    read_all-pending grant errors reader_law sizes (new_web_socket_conn true (map binary sent))
    ∙ fresh_pending (map binary sent)
    ∙ payload-map sent
    ∙ ap joined (fresh_sent ps)
  where
    fresh_pending :
        (frames : List Incoming) → pending (new_web_socket_conn true frames) ≡ payload frames
    fresh_pending frames = unfold pending new_web_socket_conn in refl

    fresh_sent :
        (qs : List Bytes) → (write_all grant errors qs (new_web_socket_conn true [])).sent ≡ qs
    fresh_sent qs =
        unfold new_web_socket_conn in
        write_all-sent grant errors qs (new_web_socket_conn true []) refl refl

-- SetDeadline on an adapter with a socket whose connection accepts deadlines, no Write being in
-- flight or the underlying connection being known, sets the read deadline, and a write deadline
-- that a Write in flight meets as well: gorilla's field when no Write is in flight, the underlying
-- connection otherwise.
pub set_deadline_reaches :
    (has_net_conn : Bool) (t : Time) (c : Conn)
    → c.has_socket ≡ true
    → (c.writing && not has_net_conn) ≡ false
    → let (error, d) = set_deadline true has_net_conn t c in
      (error ≡ none)
      × (d.read_deadline ≡ t)
      × (d.write_deadline ≡ (if c.writing then c.write_deadline else t))
      × (d.direct_deadline ≡ (if c.writing then some t else c.direct_deadline))
unfolding set_deadline set_read_deadline set_write_deadline
set_deadline_reaches has_net_conn t c there reachable = ground arith
