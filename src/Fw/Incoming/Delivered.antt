-- ===== src/Fw/Incoming/Delivered.antt =====
-- Data that matches a PIT entry reaches the faces that asked for it, through all that onIncomingData
-- and the strategy do on the way.
use ndn_share.Base.{ℕ, false, List, []}
use ndn_share.Face.{Face}
use ndn_share.Packet.{Data}
use ndn_share.Fw.State.{Forwarder}
use ndn_share.Fw.Interfaces.{Strategy, ContentStore, UnsolicitedDataPolicy}
use ndn_share.Fw.Outgoing.{Env}
use ndn_share.Fw.Incoming.{satisfy_all}

module _ {Name Cs : Type 0} (env : Env Name) (strategy : Strategy Name)
    (store : ContentStore Name Cs) (now : ℕ) (policy : UnsolicitedDataPolicy)
    (fw : Forwarder Name Cs) (in_face : Face) (packet : Data Name) where
  -- The forwarder and the downstreams after all entries were satisfied.
  abbrev pub satisfied : List ℕ → Forwarder Name Cs × List Face
  satisfied ids =
      satisfy_all env strategy now in_face packet
        (record fw { cs = store.insert_data fw.cs packet false }) [] ids
