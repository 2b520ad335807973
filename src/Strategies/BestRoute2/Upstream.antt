-- ===== src/Strategies/BestRoute2/Upstream.antt =====
-- Where best-route 2 sends Interests.
use ndn_share.Base.{◌-◌, ◌<◌, ℕ, ◌≤◌, ◌≡◌, true, false, none, some, List, [], ◌∷◌, ◌==◌, get_elem?}
use ndn_share.Face.{Face}
use ndn_share.Packet.{NameOps, Interest}
use ndn_share.Pit.{Entry}
use ndn_share.Pit.Algorithm.{violates_scope}
use ndn_share.Fib.{NextHop}
use ndn_share.Fib.Costs.{IsSorted}
use ndn_share.Fw.FaceTable.{FaceTable, id_of}
use ndn_share.Fw.Interfaces.{
  Action, send_interest, send_nack, reject_pending_interest, set_suppression_interval,
}
use ndn_share.Strategies.Retx.{interval_of, next_interval, get_last_outgoing}
use ndn_share.Pit.Algorithm.{has_pending_out_records}
use ndn_share.Strategies.BestRoute2.Earliest.{IsEarliest}
use ndn_share.Strategies.BestRoute2.{retx_suppression, is_eligible, after_receive_interest}

module _ {Name : Type 0} (names : NameOps Name) (table : FaceTable) (e : Entry Name)
    (current_downstream : ℕ) where
  -- A next hop of the FIB entry, not the downstream, to which the scope of the name allows to send.
  pub record IsUpstream (hops : List NextHop) (hop : NextHop) : Type 0 where
    pub position : ℕ
    pub is_at : get_elem? hops position ≡ some hop
    pub not_downstream : (id_of table hop.face == current_downstream) ≡ false
    pub in_scope : violates_scope names e hop.face ≡ false

  -- The upstream of a retransmission: in a list by cost, the cheapest next hop without an unexpired
  -- out-record; where all that may be used have one, a next hop with the earliest.
  pub data IsRetransmission (now : ℕ) (hops : List NextHop) (hop : NextHop) : Type 0 where
    to_unused :
        is_eligible names table e current_downstream (some now) hop ≡ true
        → ((other : NextHop) (i : ℕ)
            → IsSorted hops
            → get_elem? hops i ≡ some other
            → is_eligible names table e current_downstream (some now) other ≡ true
            → hop.cost ≤ other.cost)
        → IsRetransmission now hops hop
    to_earliest :
        ((i : ℕ) (other : NextHop)
          → get_elem? hops i ≡ some other
          → is_eligible names table e current_downstream (some now) other ≡ false)
        → IsEarliest names table e current_downstream hops hop
        → IsRetransmission now hops hop

module _ {Name : Type 0} (names : NameOps Name) (no_route none_reason : ℕ)
    (lookup_fib : Entry Name → List NextHop) (now : ℕ) (table : FaceTable) (in_face : Face)
    (interest : Interest Name) (e : Entry Name) where
  abbrev downstream : ℕ
  downstream = id_of table in_face

  abbrev UpstreamOf : NextHop → Type 0
  UpstreamOf hop = IsUpstream names table e downstream (lookup_fib e) hop

  -- How long ago the last Interest was sent, and the interval of the suppression.
  abbrev elapsed : ℕ
  elapsed = now - get_last_outgoing e

  abbrev interval : ℕ
  interval = interval_of retx_suppression e

  abbrev NoUpstream : Type 0
  NoUpstream =
      (i : ℕ) (other : NextHop)
      → get_elem? (lookup_fib e) i ≡ some other
      → is_eligible names table e downstream none other ≡ false

  -- What best-route 2 may do with an Interest. Where no out-record is pending it is new, and goes to the
  -- cheapest next hop that may be used, or is refused where there is none. Else it is kept back before
  -- the interval is over, or where there is no upstream, or it is sent again.
  pub data Choice : List Action → Type 0 where
    is_sent :
        (hop : NextHop)
        → has_pending_out_records now e ≡ false
        → UpstreamOf hop
        → ((other : NextHop) (i : ℕ)
            → IsSorted (lookup_fib e)
            → get_elem? (lookup_fib e) i ≡ some other
            → is_eligible names table e downstream none other ≡ true
            → hop.cost ≤ other.cost)
        → Choice (send_interest e.id hop.face none ∷ [])
    is_refused :
        has_pending_out_records now e ≡ false
        → NoUpstream
        → Choice (send_nack e.id in_face no_route ∷ reject_pending_interest e.id ∷ [])
    is_suppressed :
        has_pending_out_records now e ≡ true
        → elapsed < interval
        → Choice (set_suppression_interval e.id interval ∷ [])
    is_stuck :
        has_pending_out_records now e ≡ true
        → interval ≤ elapsed
        → NoUpstream
        → Choice (set_suppression_interval e.id (next_interval retx_suppression interval) ∷ [])
    is_sent_again :
        (hop : NextHop)
        → has_pending_out_records now e ≡ true
        → interval ≤ elapsed
        → UpstreamOf hop
        → IsRetransmission names table e downstream now (lookup_fib e) hop
        → Choice (
            set_suppression_interval e.id (next_interval retx_suppression interval)
            ∷ send_interest e.id hop.face none
            ∷ [])

  abbrev taken : List Action
  taken = after_receive_interest names no_route none_reason lookup_fib now table in_face interest e
