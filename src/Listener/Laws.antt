-- ===== src/Listener/Laws.antt =====
-- No connection is lost between the upgrades and Accept, and Close releases every caller.
use go_grpcbridge.Base.{
  ◌∙◌, ◌<◌, zero, ℕ, suc, ◌+◌, ◌≡◌, ◌++◌, refl, true, List, [], ◌∷◌, ◌⊎◌, arith, if◌then◌else◌,
  ◌==◌, length, ap,
}
use go_grpcbridge.Listener.{
  Listener, new_bridge_conn_listener, call_deliver, call_accept, hand_over, refuse_deliver,
  refuse_accept, close_listener, Step, delivers, accepts, meet, refuses, fails, closes, Reach,
  unused, after_step,
}

-- How often a connection stands in a list.
unfoldable pub count : ℕ → List ℕ → ℕ
count c [] = 0
count c (x ∷ xs) = let rest = count c xs in if c == x then suc rest else rest

count-append : (c : ℕ) (xs ys : List ℕ) → count c (xs ++ ys) ≡ count c xs + count c ys
unfolding count
count-append c [] ys = omega arith
count-append c (x ∷ xs) ys = ground (arith, count-append c xs ys)

-- Taking one out of the middle.
count-middle :
    (c : ℕ) (before : List ℕ) (x : ℕ) (after : List ℕ)
    → count c (before ++ x ∷ after) ≡ count c (x ∷ (before ++ after))
unfolding count
count-middle c before x after =
    ground (arith, count-append c before (x ∷ after), count-append c before after)

-- What holds of a listener between two steps.
record Inv (c : ℕ) (l : Listener) : Type 0 where
  conserved : count c l.given ≡ count c l.delivering + count c l.accepted + count c l.refused
  open_quiet : (l.closed ≡ true) ⊎ ((l.refused ≡ []) × (l.closed_errors ≡ 0))

Step-Inv : (c : ℕ) (l l' : Listener) → Step l l' → Inv c l → Inv c l'
unfolding call_deliver call_accept hand_over refuse_deliver refuse_accept close_listener count
Step-Inv c l l' (delivers conn) i = ground (arith, i.conserved, i.open_quiet)
Step-Inv c l l' accepts i = ground (arith, i.conserved, i.open_quiet)
Step-Inv c l l' (meet before conn after waiting e a) i =
    let taken = ap (count c) e ∙ count-middle c before conn after in
    ground (arith, taken, i.conserved, i.open_quiet)
Step-Inv c l l' (refuses before conn after done e) i =
    let taken = ap (count c) e ∙ count-middle c before conn after in
    ground (arith, taken, done, i.conserved, i.open_quiet)
Step-Inv c l l' (fails waiting done a) i = ground (arith, i.conserved, i.open_quiet)
Step-Inv c l l' closes i = ground (arith, i.conserved, i.open_quiet)

Reach-Inv : (c : ℕ) (l : Listener) → Reach l → Inv c l
unfolding new_bridge_conn_listener count
Reach-Inv c l unused = ground arith
Reach-Inv c l (after_step {l = before} r s) = Step-Inv c before l s (Reach-Inv c before r)

-- Each connection that deliver was called with is waiting, accepted or refused, as often as it was
-- given; before Close nothing is refused and no Accept fails.
pub given-conserved :
    (l : Listener) (conn : ℕ)
    → Reach l
    → (count conn l.given ≡ count conn l.delivering + count conn l.accepted + count conn l.refused)
      × ((l.closed ≡ true) ⊎ ((l.refused ≡ []) × (l.closed_errors ≡ 0)))
given-conserved l conn r = let i = Reach-Inv conn l r in (i.conserved, i.open_quiet)

-- The calls that wait.
pub waiting_calls : Listener → ℕ
waiting_calls l = length l.delivering + l.accepting

-- A run in which each step lets a call return, and that leaves none waiting.
pub data Released : Listener → Type 0 where
  idle : (l : Listener) → l.delivering ≡ [] → l.accepting ≡ 0 → Released l
  returns :
      (l l' : Listener) → Step l l' → waiting_calls l' < waiting_calls l → Released l' → Released l

-- Let the first call that waits return, and go on with those that are left.
release_first :
    (l : Listener)
    → l.closed ≡ true
    → ((l' : Listener) → waiting_calls l' < waiting_calls l → l'.closed ≡ true → Released l')
    → (pending : List ℕ) (waiting : ℕ) → l.delivering ≡ pending
    → l.accepting ≡ waiting
    → Released l
unfolding waiting_calls refuse_deliver refuse_accept
release_first l done rest [] zero d a = idle l d a
release_first l done rest [] (suc waiting) d a =
    let fewer : waiting_calls (refuse_accept waiting l) < waiting_calls l = ground (arith, d, a) in
    returns l _ (fails waiting done a) fewer (rest (refuse_accept waiting l) fewer done)
release_first l done rest (conn ∷ after) waiting d a =
    let fewer : waiting_calls (refuse_deliver [] conn after l) < waiting_calls l =
      ground (arith, d, a) in
    returns l _ (refuses [] conn after done d) fewer
      (rest (refuse_deliver [] conn after l) fewer done)

closed-Released : (n : ℕ) (l : Listener) → waiting_calls l < n → l.closed ≡ true → Released l
closed-Released zero l e done = ground (arith, e)
closed-Released (suc n) l e done =
    release_first l done (λ l' fewer done'. closed-Released n l' (omega (arith, e, fewer)) done')
      l.delivering l.accepting refl refl

-- After Close no call of deliver or Accept is stuck: they can all return, one after the other.
pub close_listener-releases : (l : Listener) → l.closed ≡ true → Released l
close_listener-releases l done = closed-Released (suc (waiting_calls l)) l (omega arith) done
