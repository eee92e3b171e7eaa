-- ===== src/BrowserConn/Stream.antt =====
-- The connection as a byte stream: what Read returns is what the browser delivered, in order.
use go_grpcbridge.Base.{
  ℕ, zero, suc, ◌≤◌, ◌≡◌, refl, sym, ap, ◌∙◌, inl, inr, Bool, true, false, ◌&&◌, [], ◌∷◌, ◌++◌,
  arith, if◌then◌else◌, ltb, length, take, drop, take-append-drop, length-take, Bool-cases,
}
use mathlib.Core.List.{append_assoc}
use go_grpcbridge.BrowserConn.{Bytes, BrowserConn, closed, parked, read_loop, read, resume}
use go_grpcbridge.BrowserConn.Queue.{queue, IsQueue, shift_queued_message-cases}
use go_grpcbridge.BrowserConn.Prefix.{
  joined, joined, pending, Takes, nothing_taken, failed_taken, refilled-IsQueue, take_error-cases,
  take_error-cases, shifted-Takes, token-Takes, Takes-if,
}

-- The loop of Read, the read buffer being empty. A token in the channel costs one more round.
read_loop-Takes :
    (rounds : ℕ) (choice : Bool) (size : ℕ) (c : BrowserConn)
    → c.read_message_buffer ≡ []
    → IsQueue c
    → (if c.signal then 2 else 1) ≤ rounds
    → Takes size c (read_loop rounds choice size c)
unfolding read_loop
read_loop-Takes zero choice size c empty v enough = absurd (ground (arith, Bool-cases c.signal))
read_loop-Takes (suc n) choice size c empty v enough =
    let w = refilled-IsQueue c false c.incoming_errors c.read_message_buffer v in
    let again : c.signal ≡ true
        → Takes size c (read_loop n choice size (record c { signal = false })) =
      λ set.
        token-Takes size c _
          (read_loop-Takes n choice size (record c { signal = false }) empty w (ground arith)) in
    elim (shift_queued_message-cases c v) [
      | inr (m, rest, found, split, u) ↦
          rw (found, read_loop) (shifted-Takes size c m rest empty found split u)
      | inl (nothing, missing) ↦ elim (take_error-cases c.incoming_errors c) [
        | inl (none_left, no_errors, running) ↦
            rw (missing, read_loop)
              (rw none_left (
                Takes-if size c c.signal _ _ again (λ _.
                  nothing_taken size c parked refl (λ _. (empty, nothing, no_errors, running)) v)))
        | inr (e, d, answer, takes, _) ↦
            rw (missing, read_loop)
              (rw answer (
                Takes-if size c (c.signal && choice) _ _ (λ both. again (ground arith))
                  (λ _. takes size v)))
      ]
    ]

length_zero : (xs : Bytes) → ltb 0 (length xs) ≡ false → xs ≡ []
length_zero [] h = refl
length_zero (x ∷ xs) h = absurd (ground arith)

-- A Read of any size on a sound queue, whichever ready channel it takes, returns the next bytes of
-- the stream and at most as many as asked for, leaves the rest pending in order, keeps the queue
-- sound, and parks only when there is no byte, no error and no close to report.
pub read-Takes :
    (choice : Bool) (size : ℕ) (c : BrowserConn) → IsQueue c → Takes size c (read choice size c)
unfolding read pending
read-Takes choice size c v =
    Takes-if size c c.is_closed _ _ (λ _. failed_taken size c closed v)
      (λ _.
        Takes-if size c (ltb 0 (length c.read_message_buffer)) _ _
          (λ _. record {
            prefix =
                sym (append_assoc (take size c.read_message_buffer) _ _)
                ∙ ap (λ l. l ++ joined (queue c)) (take-append-drop size c.read_message_buffer);
            fits = omega (arith, length-take size c.read_message_buffer);
            sound =
                refilled-IsQueue c c.signal c.incoming_errors (drop size c.read_message_buffer) v;
            still_open = refl;
            waits = λ h. absurd (ground arith);
          })
          (λ empty.
            read_loop-Takes 2 choice size c (length_zero _ empty) v
              (ground (arith, Bool-cases c.signal))))

-- A parked Read that goes on, a message having come with a token.
pub resume-Takes :
    (choice : Bool) (size : ℕ) (c : BrowserConn)
    → IsQueue c
    → c.read_message_buffer ≡ []
    → (c.signal ≡ false → queue c ≡ [])
    → Takes size c (resume choice size c)
unfolding resume
resume-Takes choice size c v empty quiet =
    let w = refilled-IsQueue c false c.incoming_errors c.read_message_buffer v in
    let again =
      token-Takes size c _
        (read_loop-Takes 2 choice size (record c { signal = false }) empty w (omega arith)) in
    elim (take_error-cases c.incoming_errors c) [
      | inl (none_left, no_errors, running) ↦
          rw (none_left, resume)
            (Takes-if size c c.signal _ _ (λ _. again)
              (λ off.
                nothing_taken size c parked refl (λ _. (empty, quiet off, no_errors, running)) v))
      | inr (e, d, answer, takes, _) ↦
          rw (answer, resume)
            (Takes-if size c (c.signal && choice) _ _ (λ _. again) (λ _. takes size v))
    ]
