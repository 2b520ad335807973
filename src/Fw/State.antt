-- ===== src/Fw/State.antt =====
-- The state of the forwarder (fw/forwarder.hpp), and table/pit.cpp over it. The PIT is the list of
-- its entries; where the name tree keeps them is not modelled. Entries are shared by pipelines and
-- timers in the source, and are named by their identity here. `outbox` is what the faces were given
-- to send, newest first.
use ndn_share.Base.{
  ℕ, ◌+◌, Bool, false, Option, none, some, List, [], ◌∷◌, ◌==◌, if◌then◌else◌, find_if, erase_first,
  ite,
}
use ndn_share.Face.{Face}
use ndn_share.Packet.{Interest, Data, NameOps}
use ndn_share.Pit.{Entry, new_entry}
use ndn_share.DeadNonceList.{DeadNonceList}
use ndn_share.Fw.FaceTable.{FaceTable}

-- Packets given to faces. A Nack has the Interest that it answers and a reason.
pub data Sent (Name : Type 0) : Type 0 where
  interest_to : Face → Interest Name → Sent Name
  data_to : Face → Data Name → Sent Name
  nack_to : Face → Interest Name → (reason : ℕ) → Sent Name

-- fw/forwarder-counters.hpp
pub record Counters : Type 0 where
  pub n_in_interests : ℕ
  pub n_out_interests : ℕ
  pub n_in_data : ℕ
  pub n_out_data : ℕ
  pub n_in_nacks : ℕ
  pub n_out_nacks : ℕ

pub record Forwarder (Name : Type 0) (Cs : Type 0) : Type 0 where
  pub counters : Counters
  pub face_table : FaceTable
  pub pit : List (Entry Name)
  pub last_entry_id : ℕ
  pub cs : Cs
  pub dead_nonces : DeadNonceList
  pub outbox : List (Sent Name)

module _ {Name : Type 0} where
  abbrev pub is_entry : ℕ → Entry Name → Bool
  is_entry id e = e.id == id

  -- The entry that an identity names.
  unfoldable pub entry_of : List (Entry Name) → ℕ → Option (Entry Name)
  entry_of pit id = find_if (is_entry id) pit

  -- A change of the entry that an identity names.
  unfoldable pub change : (Entry Name → Entry Name) → ℕ → List (Entry Name) → List (Entry Name)
  change f id [] = []
  change f id (e ∷ es) = if e.id == id then f e ∷ es else e ∷ change f id es

  -- Pit::erase
  unfoldable pub erase : ℕ → List (Entry Name) → List (Entry Name)
  erase id pit = erase_first (is_entry id) pit

module _ {Name : Type 0} (names : NameOps Name) where
  -- Same Name, implicit digest included, and same Selectors.
  unfoldable pub same_interest : Interest Name → Entry Name → Bool
  same_interest interest e =
      ite (names.discrete e.interest.name interest.name)
        (e.interest.selectors == interest.selectors) false

  -- Pit::find
  unfoldable pub find : List (Entry Name) → Interest Name → Option (Entry Name)
  unfolding same_interest
  find pit interest = find_if (same_interest interest) pit

module _ {Name Cs : Type 0} (names : NameOps Name) where
  -- Pit::insert: the entry that is found, or a new one.
  unfoldable pub find_or_insert : Forwarder Name Cs → Interest Name → Forwarder Name Cs × Entry Name
  unfolding find
  find_or_insert fw interest = elim (find names fw.pit interest) [
    | some e ↦ (fw, e)
    | none ↦
        let e = new_entry (fw.last_entry_id + 1) interest in
        (record fw { pit = e ∷ fw.pit; last_entry_id = fw.last_entry_id + 1 }, e)
  ]

module _ {Name Cs : Type 0} where
  abbrev pub change_entry : (Entry Name → Entry Name) → ℕ → Forwarder Name Cs → Forwarder Name Cs
  change_entry f id fw = record fw { pit = change f id fw.pit }

  abbrev pub send : Sent Name → Forwarder Name Cs → Forwarder Name Cs
  send packet fw = record fw { outbox = packet ∷ fw.outbox }
