-- ===== src/Cs/Entry.antt =====
-- table/cs-entry.cpp and table/cs-entry-impl.cpp: an entry of the Content Store. Its `id` stands for
-- its place in memory, which the iterators of the policies lead to. A stale time that is
-- TimePoint::max() is `none`.
use ndn_share.Base.{ℕ, ◌+◌, Bool, true, false, ◌&&◌, not, Option, none, some, ltb, ℤ, pos, negsuc}
use ndn_share.Packet.{Interest, Data, nanoseconds}

pub record CsEntry (Name : Type 0) : Type 0 where
  pub id : ℕ
  pub packet : Data Name
  pub is_unsolicited : Bool
  pub stale_time : Option ℕ

-- When Data that arrives now becomes stale.
unfoldable pub stale_time_of : (now : ℕ) → (freshness_period : ℤ) → Option ℕ
stale_time_of now (pos ms) = some (now + nanoseconds ms)
stale_time_of now (negsuc _) = none

module _ {Name : Type 0} where
  unfoldable pub update_stale_time : (now : ℕ) → CsEntry Name → CsEntry Name
  unfolding stale_time_of
  update_stale_time now e = record e { stale_time = stale_time_of now e.packet.freshness_period }

  unfoldable pub set_data :
      (now : ℕ) → CsEntry Name → Data Name → (is_unsolicited : Bool) → CsEntry Name
  unfolding update_stale_time
  set_data now e packet is_unsolicited =
      update_stale_time now (record e { packet = packet; is_unsolicited = is_unsolicited })

  -- The constructor of EntryImpl from Data.
  unfoldable pub entry_of_data : (id now : ℕ) → Data Name → (is_unsolicited : Bool) → CsEntry Name
  unfolding set_data
  entry_of_data id now packet is_unsolicited =
      set_data now
        (record { id = id; packet = packet; is_unsolicited = is_unsolicited; stale_time = none })
        packet is_unsolicited

  unfoldable pub is_stale : (now : ℕ) → CsEntry Name → Bool
  is_stale now e = elim e.stale_time [ none ↦ false | some t ↦ ltb t now ]

  unfoldable pub can_stale : CsEntry Name → Bool
  can_stale e = elim e.stale_time [ none ↦ false | some t ↦ true ]

  unfoldable pub unset_unsolicited : (now : ℕ) → CsEntry Name → CsEntry Name
  unfolding set_data
  unset_unsolicited now e = set_data now e e.packet false

  -- Interest::matchesData is ndn-cxx's.
  unfoldable pub can_satisfy :
      (matches_data : Interest Name → Data Name → Bool)
      → (now : ℕ) → Interest Name
      → CsEntry Name
      → Bool
  unfolding is_stale
  can_satisfy matches_data now interest e =
      matches_data interest e.packet && not (interest.must_be_fresh && is_stale now e)
