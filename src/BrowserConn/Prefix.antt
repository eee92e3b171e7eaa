-- ===== src/BrowserConn/Prefix.antt =====
-- The bytes that are pending, and what an answer takes off them.
use go_grpcbridge.Base.{
  ℕ, zero, suc, ◌≤◌, ◌≡◌, refl, sym, ap, ap₂, ◌∙◌, ◌⊎◌, inl, inr, Bool, true, false, none, some,
  List, [], ◌∷◌, ◌++◌, arith, if◌then◌else◌, ltb, length, take, drop, take-append-drop, length-take,
  Bool-cases,
}
use mathlib.Core.List.{append_assoc}
use go_grpcbridge.BrowserConn.{
  Bytes, BrowserConn, ConnError, closed, clear_queued_messages_head, advance, after_shift,
  shift_queued_message, ReadOutcome, returned, failed, parked, take_error,
}
use go_grpcbridge.BrowserConn.Queue.{queue, IsQueue}

unfoldable pub joined : List Bytes → Bytes
joined [] = []
joined (m ∷ ms) = m ++ joined ms

pub joined-append : (xs ys : List Bytes) → joined (xs ++ ys) ≡ joined xs ++ joined ys
unfolding joined
joined-append [] ys = refl
joined-append (x ∷ xs) ys =
    ap (λ l. x ++ l) (joined-append xs ys) ∙ sym (append_assoc x (joined xs) (joined ys))

-- The bytes that were delivered and not yet read.
unfoldable pub pending : BrowserConn → Bytes
pending c = c.read_message_buffer ++ joined (queue c)

abbrev pub bytes_of : ReadOutcome → Bytes
bytes_of (returned b) = b
bytes_of (failed e) = []
bytes_of parked = []

-- Nothing is left that a Read could return.
abbrev pub IsIdle : BrowserConn → Type 0
IsIdle c =
    (c.read_message_buffer ≡ []) × (queue c ≡ []) × (c.incoming_errors ≡ []) × (c.is_closed ≡ false)

-- An answer of Read takes a prefix off the stream and keeps the queue sound; it parks on an idle
-- connection only.
pub record Takes (size : ℕ) (c : BrowserConn) (answer : ReadOutcome × BrowserConn) : Type 0 where
  pub prefix : bytes_of answer.0 ++ pending answer.1 ≡ pending c
  pub fits : length (bytes_of answer.0) ≤ size
  pub sound : IsQueue answer.1
  pub still_open : answer.1.is_closed ≡ c.is_closed
  pub waits : answer.0 ≡ parked → IsIdle answer.1

frame :
    (c : BrowserConn) (m : Bytes) (rest : BrowserConn)
    → shift_queued_message c ≡ some (m, rest)
    → (rest.read_message_buffer ≡ c.read_message_buffer) × (rest.is_closed ≡ c.is_closed)
unfolding shift_queued_message after_shift advance clear_queued_messages_head
frame c m rest h = ground arith

pub nothing_taken :
    (size : ℕ) (c : BrowserConn) (o : ReadOutcome)
    → bytes_of o ≡ []
    → (o ≡ parked → IsIdle c)
    → IsQueue c
    → Takes size c (o, c)
nothing_taken size c o e idle v = record {
  prefix = rw e refl;
  fits = rw e (omega arith);
  sound = v;
  still_open = refl;
  waits = idle;
}

pub failed_taken :
    (size : ℕ) (c : BrowserConn) (e : ConnError) → IsQueue c → Takes size c (failed e, c)
failed_taken size c e v = nothing_taken size c (failed e) refl (λ h. absurd (ground arith)) v

-- What stands in the error channel and in the signal is no part of the queue.
pub refilled-IsQueue :
    (c : BrowserConn) (signal : Bool) (es : List ConnError) (buffer : Bytes)
    → IsQueue c
    → IsQueue (record c { signal = signal; incoming_errors = es; read_message_buffer = buffer })
refilled-IsQueue c signal es buffer v = record {
  head = v.head;
  counted = v.counted;
  few = v.few;
  small = v.small;
}

-- An error leaves the stream alone; there is none only while the connection is open.
pub take_error-cases :
    (es : List ConnError) (c : BrowserConn)
    → ((take_error es c ≡ none) × (es ≡ []) × (c.is_closed ≡ false))
      ⊎ ((e : ConnError) × (d : BrowserConn) × (take_error es c ≡ some (failed e, d))
          × ((size : ℕ) → IsQueue c → Takes size c (failed e, d))
          × ¬ ((es ≡ []) × (c.is_closed ≡ false)))
unfolding take_error pending
take_error-cases (e ∷ es) c = inr (
  e,
  record c { incoming_errors = es },
  refl,
  λ size v. record {
    prefix = refl;
    fits = omega arith;
    sound = refilled-IsQueue c c.signal es c.read_message_buffer v;
    still_open = refl;
    waits = λ h. absurd (ground arith);
  },
  λ (h, _). ground arith,
)
take_error-cases [] c = elim (Bool-cases c.is_closed) [
  | inl done ↦
      inr (closed, c, rw done refl, λ size v. failed_taken size c closed v, λ (_, h). ground arith)
  | inr running ↦ inl (rw running refl, refl, running)
]

pub take_all : (n : ℕ) (m : Bytes) → length m ≤ n → take n m ≡ m
take_all zero [] h = refl
take_all zero (x ∷ m) h = absurd (omega arith)
take_all (suc n) [] h = refl
take_all (suc n) (x ∷ m) h = ap (λ l. x ∷ l) (take_all n m (omega arith))

-- The message at the head: what fits is returned, and the rest becomes the read buffer.
pub shifted-Takes :
    (size : ℕ) (c : BrowserConn) (m : Bytes) (rest : BrowserConn)
    → c.read_message_buffer ≡ []
    → shift_queued_message c ≡ some (m, rest)
    → queue c ≡ m ∷ queue rest
    → IsQueue rest
    → Takes size c (
      returned (take size m),
      if ltb size (length m) then record rest { read_message_buffer = drop size m } else rest,
    )
unfolding pending joined
shifted-Takes size c m rest empty found split v =
    let (buffer, open_too) = frame c m rest found in
    let whole : pending c ≡ m ++ joined (queue rest) = ap₂ (λ b q. b ++ joined q) empty split in
    elim (Bool-cases (ltb size (length m))) [
      | inl long ↦ rw long (record {
        prefix =
            sym (append_assoc (take size m) (drop size m) _)
            ∙ ap (λ l. l ++ joined (queue rest)) (take-append-drop size m)
            ∙ sym whole;
        fits = omega (arith, length-take size m);
        sound = refilled-IsQueue rest rest.signal rest.incoming_errors (drop size m) v;
        still_open = open_too;
        waits = λ h. absurd (ground arith);
      })
      | inr short ↦ rw short (record {
        prefix =
            ap₂ (λ t b. t ++ (b ++ joined (queue rest))) (take_all size m (ground arith))
              (buffer ∙ empty)
            ∙ sym whole;
        fits = omega (arith, length-take size m);
        sound = v;
        still_open = open_too;
        waits = λ h. absurd (ground arith);
      })
    ]

-- The token of the signal is no part of the stream.
pub token-Takes :
    (size : ℕ) (c : BrowserConn) (answer : ReadOutcome × BrowserConn)
    → Takes size (record c { signal = false }) answer
    → Takes size c answer
unfolding pending
token-Takes size c answer t = record {
  prefix = t.prefix;
  fits = t.fits;
  sound = t.sound;
  still_open = t.still_open;
  waits = t.waits;
}

-- Either of two answers that both take a prefix off the stream.
pub Takes-if :
    (size : ℕ) (c : BrowserConn) (b : Bool) (x y : ReadOutcome × BrowserConn)
    → (b ≡ true → Takes size c x)
    → (b ≡ false → Takes size c y)
    → Takes size c (if b then x else y)
Takes-if size c true x y s t = s refl
Takes-if size c false x y s t = t refl
