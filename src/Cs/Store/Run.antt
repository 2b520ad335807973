-- ===== src/Cs/Store/Run.antt =====
-- What happens to a Content Store: packets are inserted and looked up, its limit is changed, and its
-- policy's timers fire.
use ndn_share.Base.{ℕ, ◌≢◌, sym, ◌∙◌, [], Bool}
use ndn_share.Packet.{Interest, Data}
use ndn_share.Cs.Order.{CsEnv}
use ndn_share.Cs.Policy.{Policy, PolicyLaws, occurrences}
use ndn_share.Cs.Store.{Cs, find, insert, set_limit, timer_fires, init}
use ndn_share.Cs.Store.Counting.{ids}
use ndn_share.Cs.Store.Bounded.{insert-IsBounded, set_limit-IsBounded, init-IsBounded}
use ndn_share.Cs.Store.Ordered.{OrderLaws, insert-IsOrdered, set_limit-IsOrdered}
use ndn_share.Cs.Store.LowerBound.{FindLastLaws}
use ndn_share.Cs.Store.Answer.{IsValid, find-IsValid}

module _ {Name P : Type 0} (env : CsEnv Name) (policy : Policy Name P) where
  pub data Step (cs : Cs Name P) : Cs Name P → Type 0 where
    data_inserted :
        (now : ℕ) (packet : Data Name) (is_unsolicited : Bool)
        → Step cs (insert env policy now cs packet is_unsolicited)
    interest_looked_up :
        (now : ℕ) (interest : Interest Name) → Step cs (find env policy now cs interest).0
    limit_changed : (n_max_packets : ℕ) → Step cs (set_limit policy cs n_max_packets)
    timer_fired : (id : ℕ) → occurrences id (ids cs.table) ≢ 0 → Step cs (timer_fires policy cs id)

  pub data Run (n_max_packets : ℕ) : Cs Name P → Type 0 where
    begin : Run n_max_packets (init policy n_max_packets)
    then_step : {cs next : Cs Name P} → Run n_max_packets cs → Step cs next → Run n_max_packets next

module _ {Name P : Type 0} (env : CsEnv Name) {policy : Policy Name P} (laws : PolicyLaws policy)
    (order : OrderLaws env) (last_laws : FindLastLaws env) where
  Step-IsValid :
      (cs next : Cs Name P) → Step env policy cs next → IsValid env laws cs → IsValid env laws next
  unfolding timer_fires
  Step-IsValid cs next (data_inserted now packet is_unsolicited) v = record {
    is_bounded = (insert-IsBounded laws env now cs packet is_unsolicited v.is_bounded).0;
    is_ordered = insert-IsOrdered env policy order now cs packet is_unsolicited v.is_ordered;
  }
  Step-IsValid cs next (interest_looked_up now interest) v =
      find-IsValid env now laws last_laws cs interest v
  Step-IsValid cs next (limit_changed n_max_packets) v = record {
    is_bounded = (set_limit-IsBounded laws cs n_max_packets v.is_bounded.is_tracked).0;
    is_ordered = set_limit-IsOrdered env policy cs n_max_packets v.is_ordered;
  }
  Step-IsValid cs next (timer_fired id there) v =
      let counts = v.is_bounded.is_tracked.counts in
      record {
        is_bounded = record {
          is_tracked = record {
            counts = λ x.
                laws.tracked-timer_fires id cs.policy x (λ z. there (sym (counts id) ∙ z))
                ∙ counts x;
          };
          within = v.is_bounded.within;
        };
        is_ordered = v.is_ordered;
      }

  init-IsValid : (n_max_packets : ℕ) → IsValid env laws (init policy n_max_packets)
  unfolding init
  init-IsValid n_max_packets = record {
    is_bounded = init-IsBounded laws n_max_packets;
    is_ordered =
        set_limit-IsOrdered env policy
          (record { table = []; last_entry_id = 0; limit = 0; policy = policy.empty }) n_max_packets
          tt;
  }

  -- Whatever happens to a new Content Store, it has at most as many entries as its limit allows, its
  -- policy tracks each of them once and nothing else, and its table is in order.
  pub Run-IsValid :
      {n_max_packets : ℕ} {cs : Cs Name P} → Run env policy n_max_packets cs → IsValid env laws cs
  Run-IsValid {n_max_packets} begin = init-IsValid n_max_packets
  Run-IsValid (then_step r s) = Step-IsValid _ _ s (Run-IsValid r)
