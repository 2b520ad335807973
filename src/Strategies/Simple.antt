-- ===== src/Strategies/Simple.antt =====
-- fw/best-route-strategy.cpp and fw/multicast-strategy.cpp. client-control
-- (fw/client-control-strategy.cpp) is best-route with a warning in the log.
use ndn_share.Base.{ℕ, none, some, List, [], ◌∷◌, ◌++◌, if◌then◌else◌, find_if}
use ndn_share.Packet.{NameOps}
use ndn_share.Pit.{Entry}
use ndn_share.Pit.Algorithm.{has_pending_out_records, can_forward_to_legacy}
use ndn_share.Fib.{NextHop}
use ndn_share.Fw.Interfaces.{Action, send_interest, reject_pending_interest}

module _ {Name : Type 0} (names : NameOps Name) (lookup_fib : Entry Name → List NextHop) (now : ℕ)
    (e : Entry Name) where
  -- BestRouteStrategy::afterReceiveInterest
  unfoldable pub best_route : List Action
  unfolding has_pending_out_records can_forward_to_legacy
  best_route =
      if has_pending_out_records now e
      then []
      else elim (find_if (λ hop. can_forward_to_legacy names now e hop.face) (lookup_fib e)) [
        | none ↦ reject_pending_interest e.id ∷ []
        | some hop ↦ send_interest e.id hop.face none ∷ []
      ]

  -- The sends of the loop. What a send changes in the PIT entry is the out-record of its own face,
  -- so that where the next hops are of different faces no test sees an earlier send.
  unfoldable pub multicast_sends : List NextHop → List Action
  unfolding can_forward_to_legacy
  multicast_sends [] = []
  multicast_sends (hop ∷ hops) =
      if can_forward_to_legacy names now e hop.face
      then send_interest e.id hop.face none ∷ multicast_sends hops
      else multicast_sends hops

  -- MulticastStrategy::afterReceiveInterest. That no out-record is pending is tested, after the
  -- sends, by the rejection itself (on_interest_reject).
  unfoldable pub multicast : List Action
  unfolding multicast_sends
  multicast = multicast_sends (lookup_fib e) ++ reject_pending_interest e.id ∷ []
