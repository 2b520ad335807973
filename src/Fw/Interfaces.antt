-- ===== src/Fw/Interfaces.antt =====
-- What the pipelines of fw/forwarder.cpp call: the triggers of a strategy (fw/strategy.hpp), the
-- Content Store (table/cs.hpp), and the policy for unsolicited Data (fw/unsolicited-data-policy.cpp).
use ndn_share.Base.{ℕ, Bool, Option, List}
use ndn_share.Face.{Face, local, non_local}
use ndn_share.Packet.{Interest, Data}
use ndn_share.Pit.{Entry}
use ndn_share.Fw.FaceTable.{FaceTable}

-- What a strategy may do in a trigger (the protected members of fw/strategy.hpp), and the interval
-- that retransmission suppression keeps in the PIT entry.
pub data Action : Type 0 where
  send_interest : ℕ → Face → (new_nonce : Option ℕ) → Action
  send_nack : ℕ → Face → (reason : ℕ) → Action
  reject_pending_interest : ℕ → Action
  set_suppression_interval : ℕ → (interval : ℕ) → Action

-- fw/strategy.hpp: the triggers, each as the actions that it takes. The measurements that a strategy
-- keeps are its own.
pub record Strategy (Name : Type 0) : Type 0 where
  pub after_receive_interest : FaceTable → Face → Interest Name → Entry Name → List Action
  pub after_receive_nack :
      FaceTable → Face → Interest Name → (reason : ℕ) → Entry Name → List Action
  pub before_satisfy_interest : FaceTable → Entry Name → Face → Data Name → List Action
  pub before_expire_pending_interest : FaceTable → Entry Name → List Action

-- table/cs.hpp, as the forwarder uses it. A find may change the store.
pub record ContentStore (Name Cs : Type 0) : Type 0 where
  pub find_data : Cs → Interest Name → Cs × Option (Data Name)
  pub insert_data : Cs → Data Name → (is_unsolicited : Bool) → Cs

-- fw/unsolicited-data-policy.cpp
pub data UnsolicitedDataDecision : Type 0 where
  drop_it cache_it : UnsolicitedDataDecision

pub data UnsolicitedDataPolicy : Type 0 where
  drop_all admit_local admit_network admit_all : UnsolicitedDataPolicy

unfoldable pub decide : UnsolicitedDataPolicy → Face → UnsolicitedDataDecision
decide drop_all in_face = drop_it
decide admit_local in_face = elim in_face.scope [ local ↦ cache_it | non_local ↦ drop_it ]
decide admit_network in_face = elim in_face.scope [ local ↦ drop_it | non_local ↦ cache_it ]
decide admit_all in_face = cache_it
