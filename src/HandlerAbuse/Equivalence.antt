-- ===== src/HandlerAbuse/Equivalence.antt =====
-- Two guards with the same limits, under a history of calls.
use go_grpcbridge.Base.{ℕ, ◌≤◌, ◌≡◌, refl, ap₂, Option, List, [], ◌∷◌}
use go_grpcbridge.Net.{Request}
use go_grpcbridge.Clock.{Time}
use go_grpcbridge.Config.{BridgeConfig}
use go_grpcbridge.HandlerConfig.{HandlerConfig}
use go_grpcbridge.Abuse.{
  AbuseGuard, Refusal, build_bridge_abuse_guard, reserve_bridge_connection, clear_bridge_connection,
}
use go_grpcbridge.HandlerAbuse.{
  HandlerGuard, build_handler_abuse_guard, reserve_handler_connection, clear_handler_connection,
}
use go_grpcbridge.HandlerAbuse.Agreement.{SameLimits, Agree}
use go_grpcbridge.HandlerAbuse.AgreementSteps.{reserve-Agree, clear-Agree}

-- A call of a guard by its handler.
pub data Call : Type 0 where
  reserves : Option Request → Time → Call
  clears : Option Request → Call

-- What the guard answers to the reservations of a history.
pub bridge_answers : AbuseGuard → List Call → List (Option Refusal)
bridge_answers g [] = []
bridge_answers g (reserves r t ∷ cs) =
    let answer = reserve_bridge_connection r t g in answer.1 ∷ bridge_answers answer.0 cs
bridge_answers g (clears r ∷ cs) = bridge_answers (clear_bridge_connection r g) cs

pub handler_answers : HandlerGuard → List Call → List (Option Refusal)
handler_answers h [] = []
handler_answers h (reserves r t ∷ cs) =
    let answer = reserve_handler_connection r t h in answer.1 ∷ handler_answers answer.0 cs
handler_answers h (clears r ∷ cs) = handler_answers (clear_handler_connection r h) cs

-- The clock does not go back from one reservation to the next.
abbrev pub Ordered : ℕ → List Call → Type 0
Ordered now [] = Unit
Ordered now (reserves r t ∷ cs) = (now ≤ t) × Ordered t cs
Ordered now (clears r ∷ cs) = Ordered now cs

answers-Agree :
    (now : ℕ) (cs : List Call) (g : AbuseGuard) (h : HandlerGuard)
    → Ordered now cs
    → Agree now g h
    → bridge_answers g cs ≡ handler_answers h cs
unfolding bridge_answers handler_answers
answers-Agree now [] g h o v = refl
answers-Agree now (reserves r t ∷ cs) g h (le, o) v =
    let (u, e) = reserve-Agree r now t g h le v in ap₂ (λ a l. a ∷ l) e (answers-Agree t cs _ _ o u)
answers-Agree now (clears r ∷ cs) g h o v = answers-Agree now cs _ _ o (clear-Agree r now g h v)

fresh-Agree :
    (cfg : BridgeConfig) (hcfg : HandlerConfig)
    → SameLimits cfg hcfg
    → Agree 0 (build_bridge_abuse_guard cfg) (build_handler_abuse_guard hcfg)
unfolding build_bridge_abuse_guard build_handler_abuse_guard
fresh-Agree cfg hcfg same = record {
  limits = same;
  active = refl;
  connections = refl;
  distinct = tt;
  met = λ k t later. refl;
}

-- With the same limits, a new guard of pkg/grpctunnel and a new guard of pkg/bridge give the same
-- answers to every history of reservations and releases in which the clock does not go back:
-- removing the expired windows is not visible.
pub bridge_answers-eq-handler_answers :
    (cfg : BridgeConfig) (hcfg : HandlerConfig) (cs : List Call)
    → SameLimits cfg hcfg
    → Ordered 0 cs
    → bridge_answers (build_bridge_abuse_guard cfg) cs
      ≡ handler_answers (build_handler_abuse_guard hcfg) cs
bridge_answers-eq-handler_answers cfg hcfg cs same o =
    answers-Agree 0 cs _ _ o (fresh-Agree cfg hcfg same)
