-- ===== src/Fw/Run.antt =====
-- What happens to a forwarder (fw/forwarder.cpp), as a step relation: packets arrive, timers fire, and
-- faces come and go (with table/cleanup.cpp). Time does not go back.
pub mod Scope
use ndn_share.Base.{ℕ, ◌≡◌, ◌≤◌, Bool, Option, some, none, List, map, ℤ}
use ndn_share.Face.{Face}
use ndn_share.Packet.{Interest, Data}
use ndn_share.Pit.{Entry, Straggler, delete_in_out_records}
use ndn_share.Fw.FaceTable.{FaceTable, get, add, remove_face}
use ndn_share.Fw.State.{Forwarder, entry_of}
use ndn_share.Fw.Interfaces.{Strategy, ContentStore, UnsolicitedDataPolicy}
use ndn_share.Fw.Outgoing.{Env, on_interest_finalize}
use ndn_share.Fw.Incoming.{
  on_incoming_interest, on_incoming_data, on_incoming_nack, on_interest_unsatisfied,
}

module _ {Name Cs : Type 0} where
  -- FaceTable::remove of a face that is there: its records leave the PIT before it leaves the table.
  -- The FIB is not in this state.
  unfoldable pub on_face_removed : Forwarder Name Cs → ℕ → Forwarder Name Cs
  unfolding get remove_face delete_in_out_records
  on_face_removed fw id = elim (get fw.face_table id) [
    | none ↦ fw
    | some face ↦ record fw {
      pit = map (λ e. delete_in_out_records e face) fw.pit;
      face_table = (remove_face fw.face_table id).0;
    }
  ]

module _ {Name Cs : Type 0} (env : Env Name) (strategy : (now : ℕ) → Strategy Name)
    (store : (now : ℕ) → ContentStore Name Cs) (policy : UnsolicitedDataPolicy)
    (duplicate : ℕ) where
  pub data Step (now : ℕ) (fw : Forwarder Name Cs) : Forwarder Name Cs → Type 0 where
    interest_arrives :
        (in_face : Face) (interest : Interest Name)
        → Step now fw
            (on_incoming_interest env (strategy now) (store now) now fw in_face interest duplicate)
    data_arrives :
        (in_face : Face) (packet : Data Name)
        → Step now fw (on_incoming_data env (strategy now) (store now) now policy fw in_face packet)
    nack_arrives :
        (in_face : Face) (interest : Interest Name) (reason : ℕ)
        → Step now fw (on_incoming_nack env (strategy now) now fw in_face interest reason)
    unsatisfy_timer_fires :
        (e : Entry Name) (id due : ℕ)
        → entry_of fw.pit id ≡ some e
        → e.unsatisfy_timer ≡ some due
        → due ≤ now
        → Step now fw (on_interest_unsatisfied env (strategy now) now fw id)
    straggler_timer_fires :
        (e : Entry Name) (id : ℕ) (timer : Straggler)
        → entry_of fw.pit id ≡ some e
        → e.straggler_timer ≡ some timer
        → timer.due ≤ now
        → Step now fw (on_interest_finalize env fw id timer.is_satisfied timer.freshness_period)
    face_added : (face : Face) → Step now fw (record fw { face_table = add fw.face_table face })
    face_removed : (id : ℕ) → Step now fw (on_face_removed fw id)

  -- A run: the time and the state that it has come to.
  pub data Run (start : Forwarder Name Cs) : ℕ → Forwarder Name Cs → Type 0 where
    begin : (now : ℕ) → Run start now start
    then_step :
        {now later : ℕ} {fw next : Forwarder Name Cs}
        → Run start now fw
        → now ≤ later
        → Step later fw next
        → Run start later next
