-- ===== src/Listener/Tests.antt =====
-- One connection that is handed over, and one that Close leaves waiting.
use go_grpcbridge.Base.{◌+◌, ◌≡◌, refl, true, [], ◌⊎◌}
use go_grpcbridge.Listener.{
  Listener, new_bridge_conn_listener, call_deliver, call_accept, hand_over, close_listener,
  delivers, accepts, meet, Reach, unused, after_step,
}
use go_grpcbridge.Listener.Laws.{count, given-conserved, Released, close_listener-releases}

abbrev met : Listener
met = hand_over [] 7 [] 0 (call_accept (call_deliver 7 new_bridge_conn_listener))

met-Reach : Reach met
unfolding new_bridge_conn_listener call_deliver call_accept hand_over
met-Reach =
    after_step (after_step (after_step unused (delivers 7)) accepts) (meet [] 7 [] 0 refl refl)

given-conserved_example :
    (count 7 met.given ≡ count 7 met.delivering + count 7 met.accepted + count 7 met.refused)
    × ((met.closed ≡ true) ⊎ ((met.refused ≡ []) × (met.closed_errors ≡ 0)))
given-conserved_example = given-conserved met 7 met-Reach

abbrev stopped : Listener
stopped = close_listener (call_deliver 8 met)

close_listener-releases_example : Released stopped
unfolding close_listener
close_listener-releases_example = close_listener-releases stopped refl
