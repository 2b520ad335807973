-- ===== src/Strategies/BestRoute2.antt =====
-- fw/best-route-strategy2.cpp. The reasons of Nacks are ndn-cxx's numbers.
pub mod Earliest
pub mod Upstream
pub mod Scan
pub mod Nacks
use ndn_share.Base.{
  ℕ, suc, ◌+◌, min, Bool, true, false, ◌&&◌, not, Option, none, some, List, [], ◌∷◌, ◌++◌, ltb,
  ◌==◌, if◌then◌else◌, find_if,
}
use ndn_share.Face.{Face}
use ndn_share.Packet.{NameOps, Interest, nanoseconds}
use ndn_share.Pit.{Entry, OutRecord, get_in_record, get_out_record}
use ndn_share.Pit.Algorithm.{violates_scope}
use ndn_share.Fib.{NextHop}
use ndn_share.Fw.FaceTable.{FaceTable, id_of}
use ndn_share.Fw.Interfaces.{
  Action, send_interest, send_nack, reject_pending_interest, set_suppression_interval, Strategy,
}
use ndn_share.Strategies.Common.{send_nacks}
use ndn_share.Strategies.Retx.{
  Exponential, default_exponential, RetxResult, new_interest, forward, suppress, decide,
}

abbrev pub retx_suppression : Exponential
retx_suppression = record default_exponential {
  initial_interval = nanoseconds 10;
  max_interval = nanoseconds 250;
}

module _ {Name : Type 0} (names : NameOps Name) (table : FaceTable) (e : Entry Name) where
  -- predicate_NextHop_eligible; `now` is given where an unused next hop is wanted.
  unfoldable pub is_eligible : (current_downstream : ℕ) → (now : Option ℕ) → NextHop → Bool
  unfolding violates_scope get_out_record id_of
  is_eligible current_downstream now hop =
      if id_of table hop.face == current_downstream
      then false
      else if violates_scope names e hop.face
      then false
      else elim now [
        | none ↦ true
        | some now ↦ elim (get_out_record e hop.face) [
          | none ↦ true
          | some r ↦ not (ltb now r.expiry)
        ]
      ]

  -- The loop of findEligibleNextHopWithEarliestOutRecord, with `found` and `earliestRenewed`, where
  -- TimePoint::max() is `none`.
  unfoldable pub consider :
      (current_downstream : ℕ) → NextHop → Option NextHop × Option ℕ → Option NextHop × Option ℕ
  unfolding is_eligible get_out_record
  consider current_downstream hop (found, earliest_renewed) =
      if not (is_eligible current_downstream none hop)
      then (found, earliest_renewed)
      else elim (get_out_record e hop.face) [
        | none ↦ (found, earliest_renewed)
        | some r ↦
            if elim earliest_renewed [ none ↦ true | some t ↦ ltb r.last_renewed t ]
            then (some hop, some r.last_renewed)
            else (found, earliest_renewed)
      ]

  unfoldable pub find_earliest :
      (current_downstream : ℕ) → Option NextHop × Option ℕ → List NextHop → Option NextHop
  unfolding consider
  find_earliest current_downstream best [] = best.0
  find_earliest current_downstream best (hop ∷ hops) =
      find_earliest current_downstream (consider current_downstream hop best) hops

  -- The upstream of a retransmission: an unused one, or the one that was used earliest.
  unfoldable pub retransmit_to : (current_downstream now : ℕ) → List NextHop → Option NextHop
  unfolding is_eligible find_earliest
  retransmit_to current_downstream now hops =
      elim (find_if (is_eligible current_downstream (some now)) hops) [
        | some hop ↦ some hop
        | none ↦ find_earliest current_downstream (none, none) hops
      ]

unfoldable pub note_interval : (id : ℕ) → Option ℕ → List Action
note_interval id none = []
note_interval id (some interval) = set_suppression_interval id interval ∷ []

-- The variables of the loop over the out-records in afterReceiveNack.
pub record NackScan : Type 0 where
  pub n_out_records_not_nacked : ℕ
  pub last_face_not_nacked : Option Face
  pub least_severe_reason : ℕ

module _ (none_reason : ℕ) where
  unfoldable pub compare_less_severe : ℕ → ℕ → ℕ
  compare_less_severe x y = if x == none_reason then y else if y == none_reason then x else min x y

  unfoldable pub scan_nack : NackScan → OutRecord → NackScan
  unfolding compare_less_severe
  scan_nack s r = elim r.incoming_nack [
    | none ↦ record s {
      n_out_records_not_nacked = s.n_out_records_not_nacked + 1;
      last_face_not_nacked = some r.face;
    }
    | some reason ↦ record s {
      least_severe_reason = compare_less_severe s.least_severe_reason reason;
    }
  ]

  unfoldable pub scan_nacks : NackScan → List OutRecord → NackScan
  unfolding scan_nack
  scan_nacks s [] = s
  scan_nacks s (r ∷ rs) = scan_nacks (scan_nack s r) rs

module _ {Name : Type 0} (names : NameOps Name) (no_route none_reason : ℕ)
    (lookup_fib : Entry Name → List NextHop) (now : ℕ) where
  -- afterReceiveInterest, from the decision of the suppression on.
  unfoldable pub respond : FaceTable → Face → Entry Name → RetxResult × Option ℕ → List Action
  unfolding note_interval is_eligible retransmit_to id_of
  respond table in_face e (suppress, interval) = note_interval e.id interval
  respond table in_face e (new_interest, interval) =
      elim (find_if (is_eligible names table e (id_of table in_face) none) (lookup_fib e)) [
        | none ↦ send_nack e.id in_face no_route ∷ reject_pending_interest e.id ∷ []
        | some hop ↦ send_interest e.id hop.face none ∷ []
      ]
  respond table in_face e (forward, interval) =
      note_interval e.id interval
      ++ elim (retransmit_to names table e (id_of table in_face) now (lookup_fib e)) [
        | none ↦ []
        | some hop ↦ send_interest e.id hop.face none ∷ []
      ]

  unfoldable pub after_receive_interest :
      FaceTable → Face → Interest Name → Entry Name → List Action
  unfolding decide respond
  after_receive_interest table in_face interest e =
      respond table in_face e (decide retx_suppression now e)

  unfoldable pub after_receive_nack :
      FaceTable → Face → Interest Name → (reason : ℕ) → Entry Name → List Action
  unfolding scan_nacks get_in_record send_nacks
  after_receive_nack table in_face interest reason e =
      let s =
        scan_nacks none_reason
          (record {
            n_out_records_not_nacked = 0;
            last_face_not_nacked = none;
            least_severe_reason = none_reason;
          })
          e.out_records in
      let waiting =
        if ltb 0 s.n_out_records_not_nacked then [] else send_nacks e s.least_severe_reason [] in
      if s.n_out_records_not_nacked == 1
      then elim s.last_face_not_nacked [
        | none ↦ waiting
        | some face ↦ elim (get_in_record e face) [
          | none ↦ waiting
          | some r ↦ send_nack e.id face s.least_severe_reason ∷ []
        ]
      ]
      else waiting

  -- The strategy; its other triggers only log.
  unfoldable pub best_route2 : Strategy Name
  unfolding after_receive_interest after_receive_nack
  best_route2 = record {
    after_receive_interest = after_receive_interest;
    after_receive_nack = after_receive_nack;
    before_satisfy_interest = λ table e face packet. [];
    before_expire_pending_interest = λ table e. [];
  }
