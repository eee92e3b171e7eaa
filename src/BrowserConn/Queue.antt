-- ===== src/BrowserConn/Queue.antt =====
-- The slice with its head index as a queue of messages.
use go_grpcbridge.Base.{
  ℕ, zero, suc, ◌+◌, ◌≤◌, ◌<◌, ◌≡◌, refl, sym, ap, ◌∙◌, ◌⊎◌, inl, inr, none, some, List, [], ◌∷◌,
  ◌++◌, arith, leb, length, drop, get_elem?, set, length-append, length-drop, Bool-cases, leb→le,
}
use native.Mathlib.Numerals.{add-one}
use go_grpcbridge.BrowserConn.{
  Bytes, BrowserConn, limit_connection_queued_messages, limit_connection_queued_bytes,
  clear_queued_messages_head, append_message, advance, after_shift, shift_queued_message,
}

-- The messages that are still queued, oldest first.
abbrev pub queue : BrowserConn → List Bytes
queue c = drop c.shift_queue_start c.queued_messages

unfoldable pub total_bytes : List Bytes → ℕ
total_bytes [] = 0
total_bytes (m ∷ ms) = length m + total_bytes ms

pub total_bytes-append :
    (xs ys : List Bytes) → total_bytes (xs ++ ys) ≡ total_bytes xs + total_bytes ys
unfolding total_bytes
total_bytes-append [] ys = omega arith
total_bytes-append (x ∷ xs) ys = omega (arith, total_bytes-append xs ys)

drop-append_within :
    (n : ℕ) (xs ys : List Bytes) → n ≤ length xs → drop n (xs ++ ys) ≡ drop n xs ++ ys
drop-append_within zero xs ys h = refl
drop-append_within (suc n) [] ys h = absurd (omega arith)
drop-append_within (suc n) (x ∷ xs) ys h = drop-append_within n xs ys (omega arith)

-- The element at an index is the head of what is left from there on.
get_elem?-drop :
    (n : ℕ) (xs : List Bytes)
    → ((get_elem? xs n ≡ none) × (drop n xs ≡ []))
      ⊎ ((m : Bytes) × (get_elem? xs n ≡ some m) × (drop n xs ≡ m ∷ drop (suc n) xs))
get_elem?-drop zero [] = inl (refl, refl)
get_elem?-drop zero (x ∷ xs) = inr (x, refl, refl)
get_elem?-drop (suc n) [] = inl (refl, refl)
get_elem?-drop (suc n) (x ∷ xs) = get_elem?-drop n xs

drop-set : (n : ℕ) (xs : List Bytes) (v : Bytes) → drop (suc n) (set xs n v) ≡ drop (suc n) xs
drop-set n [] v = refl
drop-set zero (x ∷ xs) v = refl
drop-set (suc n) (x ∷ xs) v = drop-set n xs v

length-set : (n : ℕ) (xs : List Bytes) (v : Bytes) → length (set xs n v) ≡ length xs
length-set n [] v = refl
length-set zero (x ∷ xs) v = refl
length-set (suc n) (x ∷ xs) v = ap suc (length-set n xs v)

drop_past : (n : ℕ) (xs : List Bytes) → length xs ≤ n → drop n xs ≡ []
drop_past zero [] h = refl
drop_past zero (x ∷ xs) h = absurd (omega arith)
drop_past (suc n) [] h = refl
drop_past (suc n) (x ∷ xs) h = drop_past n xs (omega arith)

-- The queue stays within its two limits, and its size in bytes is counted.
pub record IsQueue (c : BrowserConn) : Type 0 where
  pub head : c.shift_queue_start ≤ length c.queued_messages
  pub counted : c.queued_bytes_size ≡ total_bytes (queue c)
  pub few : length (queue c) ≤ limit_connection_queued_messages
  pub small : c.queued_bytes_size ≤ limit_connection_queued_bytes

-- Compaction drops consumed slots only.
pub clear_queued_messages_head-queue :
    (c : BrowserConn)
    → (queue (clear_queued_messages_head c) ≡ queue c)
      × ((clear_queued_messages_head c).queued_bytes_size ≡ c.queued_bytes_size)
      × (c.shift_queue_start ≤ length c.queued_messages
          → (clear_queued_messages_head c).shift_queue_start
            ≤ length (clear_queued_messages_head c).queued_messages)
unfolding clear_queued_messages_head
clear_queued_messages_head-queue c = ground arith

pub clear_queued_messages_head-IsQueue :
    (c : BrowserConn) → IsQueue c → IsQueue (clear_queued_messages_head c)
clear_queued_messages_head-IsQueue c v =
    let (same, bytes, within) = clear_queued_messages_head-queue c in
    record {
      head = within v.head;
      counted = bytes ∙ v.counted ∙ ap total_bytes (sym same);
      few = rw same v.few;
      small = rw bytes v.small;
    }

-- A message that fits goes to the end of the queue.
pub append_message-queue :
    (grow : ℕ → ℕ) (m : Bytes) (c : BrowserConn)
    → IsQueue c
    → queue (append_message grow m c) ≡ queue c ++ m ∷ []
unfolding append_message
append_message-queue grow m c v = drop-append_within c.shift_queue_start c.queued_messages _ v.head

pub append_message-IsQueue :
    (grow : ℕ → ℕ) (m : Bytes) (c : BrowserConn)
    → IsQueue c
    → length (queue c) < limit_connection_queued_messages
    → c.queued_bytes_size + length m ≤ limit_connection_queued_bytes
    → IsQueue (append_message grow m c)
unfolding append_message total_bytes
append_message-IsQueue grow m c v room fits =
    let end = append_message-queue grow m c v in
    record {
      head = omega (arith, v.head, length-append {0} c.queued_messages (m ∷ []));
      counted = omega (arith, v.counted, ap total_bytes end, total_bytes-append (queue c) (m ∷ []));
      few = omega (arith, ap length end, length-append {0} (queue c) (m ∷ []));
      small = fits;
    }

-- Advancing past the message at the head leaves the others.
advance-queue :
    (m : Bytes) (rest : List Bytes) (c : BrowserConn)
    → IsQueue c
    → queue c ≡ m ∷ rest
    → drop (suc c.shift_queue_start) c.queued_messages ≡ rest
    → (queue (advance m c) ≡ rest) × IsQueue (advance m c)
unfolding advance total_bytes
advance-queue m rest c v split later =
    let moved : queue (advance m c) ≡ rest =
      rw add-one (drop-set c.shift_queue_start c.queued_messages []) ∙ later in
    (
      moved,
      record {
        head = omega (
          arith,
          ap length split,
          length-drop c.shift_queue_start c.queued_messages,
          length-set c.shift_queue_start c.queued_messages [],
        );
        counted = omega (arith, v.counted, ap total_bytes split, ap total_bytes moved);
        few = omega (arith, v.few, ap length split, ap length moved);
        small = omega (arith, v.small);
      },
    )

after_shift-queue :
    (c : BrowserConn) → IsQueue c → (queue (after_shift c) ≡ queue c) × IsQueue (after_shift c)
unfolding after_shift total_bytes
after_shift-queue c v = elim (Bool-cases (leb (length c.queued_messages) c.shift_queue_start)) [
  | inl past ↦
      let none_left = drop_past c.shift_queue_start c.queued_messages (leb→le _ _ past) in
      rw past (
        sym none_left,
        record {
          head = omega arith;
          counted = v.counted ∙ ap total_bytes none_left;
          few = omega arith;
          small = v.small;
        },
      )
  | inr more ↦
      rw more ((clear_queued_messages_head-queue c).0, clear_queued_messages_head-IsQueue c v)
]

-- shiftQueuedMessage fails on the empty queue only, and otherwise takes the oldest message off.
pub shift_queued_message-cases :
    (c : BrowserConn)
    → IsQueue c
    → ((queue c ≡ []) × (shift_queued_message c ≡ none))
      ⊎ ((m : Bytes) × (rest : BrowserConn) × (shift_queued_message c ≡ some (m, rest))
          × (queue c ≡ m ∷ queue rest)
          × IsQueue rest)
unfolding shift_queued_message
shift_queued_message-cases c v = elim (get_elem?-drop c.shift_queue_start c.queued_messages) [
  | inl (missing, empty) ↦ inl (empty, rw (missing, shift_queued_message) refl)
  | inr (m, found, split) ↦
      let (moved, w) = advance-queue m _ c v split refl in
      let (kept, u) = after_shift-queue (advance m c) w in
      inr (
        m,
        after_shift (advance m c),
        rw (found, shift_queued_message) refl,
        split ∙ ap (λ l. m ∷ l) (sym (kept ∙ moved)),
        u,
      )
]
