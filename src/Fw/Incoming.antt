-- ===== src/Fw/Incoming.antt =====
-- fw/forwarder.cpp: the pipelines of incoming Interests, Data and Nacks, with the strategy, the
-- Content Store and the policy for unsolicited Data as interfaces.
pub mod Keeping
pub mod Loop
pub mod Downstreams
pub mod Delivered
use ndn_share.Base.{
  ℕ, ◌+◌, Bool, true, false, ◌&&◌, ◌||◌, not, Option, none, some, List, [], ◌∷◌, ltb, ◌==◌,
  if◌then◌else◌, any_of, ℤ,
}
use ndn_share.Face.{Face, Scope, local, non_local, is_multi_access, same_face}
use ndn_share.Packet.{Interest, Data, NameOps}
use ndn_share.Pit.{
  Entry, InRecord, OutRecord, has_in_records, insert_or_update_in_record, clear_in_records,
  get_out_record, delete_out_record, out_record_of, set_incoming_nack,
}
use ndn_share.Base.{update_first}
use ndn_share.Pit.Algorithm.{find_duplicate_nonce, duplicate_nonce_none}
use ndn_share.DeadNonceList.{has}
use ndn_share.Fw.FaceTable.{FaceTable, get}
use ndn_share.Fw.Uri.{unqueried}
use ndn_share.Fw.State.{
  Forwarder, Counters, Sent, nack_to, entry_of, change_entry, find_or_insert, find, send,
}
use ndn_share.Fw.Interfaces.{
  Action, send_interest, send_nack, reject_pending_interest, set_suppression_interval, Strategy,
  ContentStore, UnsolicitedDataPolicy, drop_it, cache_it, decide,
}
use ndn_share.Fw.Outgoing.{
  Env, cancel_timers, set_straggler_timer, set_unsatisfy_timer, is_violating_localhost, with_entry,
  count, on_outgoing_interest, on_outgoing_data, on_outgoing_nack, on_interest_reject,
  on_interest_finalize, insert_dead_nonce_list, no_freshness_period,
}

module _ {Name : Type 0} where
  -- The faces of the in-records that have not expired, each once.
  unfoldable pub add_downstreams : (now : ℕ) → List Face → List (InRecord Name) → List Face
  add_downstreams now faces [] = faces
  add_downstreams now faces (r ∷ rs) =
      add_downstreams now
        (if ltb now r.expiry && not (any_of (λ face. same_face face r.face) faces)
          then r.face ∷ faces
          else faces)
        rs

  -- setIncomingNack on the out-record of a face.
  unfoldable pub set_nack : Face → (nonce reason : ℕ) → Entry Name → Entry Name
  set_nack face nonce reason e =
      elim (update_first (out_record_of face) (λ r. (set_incoming_nack nonce reason r).0)
        e.out_records) [ none ↦ e | some rs ↦ record e { out_records = rs } ]

module _ {Name : Type 0} (env : Env Name) where
  -- A queried Interest is renamed; its own name is kept as the queried one, if it has none.
  unfoldable pub restore_queried : Interest Name → Interest Name
  unfolding unqueried
  restore_queried interest = elim (unqueried env.names interest.name) [
    | none ↦ interest
    | some name ↦ record interest {
      name = name;
      queried_name = elim interest.queried_name [ none ↦ some interest.name | some q ↦ some q ];
    }
  ]

  -- A queried name of Data is put back.
  unfoldable pub restore_data : Data Name → Data Name
  unfolding unqueried
  restore_data packet = elim (unqueried env.names packet.name) [
    | none ↦ packet
    | some name ↦ record packet { name = name }
  ]

  -- Pit::findAllDataMatches, as identities; the name tree's order is not modelled.
  unfoldable pub find_all_data_matches : List (Entry Name) → Data Name → List ℕ
  find_all_data_matches [] packet = []
  find_all_data_matches (e ∷ es) packet =
      if env.matches_data e.interest packet
      then e.id ∷ find_all_data_matches es packet
      else find_all_data_matches es packet

module _ {Name Cs : Type 0} where
  -- Nacks of loops do not enter the outgoing Nack pipeline, which needs an in-record.
  unfoldable pub on_interest_loop :
      Forwarder Name Cs → Face → Interest Name → (duplicate : ℕ) → Forwarder Name Cs
  on_interest_loop fw in_face interest duplicate =
      if is_multi_access in_face.link_type then fw else send (nack_to in_face interest duplicate) fw

  unfoldable pub downstreams_of : (now : ℕ) → Forwarder Name Cs → List Face → ℕ → List Face
  unfolding add_downstreams
  downstreams_of now fw faces id = elim (entry_of fw.pit id) [
    | none ↦ faces
    | some e ↦ add_downstreams now faces e.in_records
  ]

module _ {Name Cs : Type 0} (env : Env Name) (now : ℕ) where
  unfoldable pub act : Forwarder Name Cs → Action → Forwarder Name Cs
  unfolding on_outgoing_interest on_outgoing_nack on_interest_reject
  act fw (send_interest id face new_nonce) = on_outgoing_interest env now fw id face new_nonce
  act fw (send_nack id face reason) = on_outgoing_nack fw id face reason
  act fw (reject_pending_interest id) = on_interest_reject now fw id
  act fw (set_suppression_interval id interval) =
      change_entry (λ e. record e { suppression_interval = some interval }) id fw

  unfoldable pub act_all : Forwarder Name Cs → List Action → Forwarder Name Cs
  unfolding act
  act_all fw [] = fw
  act_all fw (a ∷ actions) = act_all (act fw a) actions

  unfoldable pub on_content_store_hit : Forwarder Name Cs → Face → ℕ → Data Name → Forwarder Name Cs
  unfolding set_straggler_timer on_outgoing_data
  on_content_store_hit fw in_face id packet =
      on_outgoing_data env
        (change_entry (set_straggler_timer now true packet.freshness_period) id fw) packet in_face

module _ {Name Cs : Type 0} (env : Env Name) (strategy : Strategy Name) (now : ℕ) where
  unfoldable pub on_interest_unsatisfied : Forwarder Name Cs → ℕ → Forwarder Name Cs
  unfolding with_entry act_all on_interest_finalize
  on_interest_unsatisfied fw id = with_entry fw id λ e.
      on_interest_finalize env
        (act_all env now fw (strategy.before_expire_pending_interest fw.face_table e)) id false
        no_freshness_period

  unfoldable pub on_content_store_miss :
      Forwarder Name Cs → Face → ℕ → Interest Name → Forwarder Name Cs
  unfolding with_entry insert_or_update_in_record set_unsatisfy_timer get on_outgoing_interest
      act_all
  on_content_store_miss fw in_face id interest =
      let recorded =
        change_entry
          (λ e.
            set_unsatisfy_timer
              (insert_or_update_in_record env.default_lifetime now e in_face interest))
          id fw in
      elim interest.next_hop_face_id [
        | some next_hop ↦ elim (get fw.face_table next_hop) [
          | none ↦ recorded
          | some face ↦ on_outgoing_interest env now recorded id face none
        ]
        | none ↦ with_entry recorded id λ e.
            act_all env now recorded
              (strategy.after_receive_interest fw.face_table in_face interest e)
      ]

  unfoldable pub on_incoming_nack :
      Forwarder Name Cs → Face → Interest Name → (reason : ℕ) → Forwarder Name Cs
  unfolding find get_out_record act_all with_entry
  on_incoming_nack fw in_face interest reason =
      let received = count (λ c. record c { n_in_nacks = c.n_in_nacks + 1 }) fw in
      if is_multi_access in_face.link_type
      then received
      else elim (find env.names received.pit interest) [
        | none ↦ received
        | some e ↦ elim (get_out_record e in_face) [
          | none ↦ received
          | some r ↦
              if not (interest.nonce == r.last_nonce)
              then received
              else let recorded =
                  change_entry (set_nack in_face interest.nonce reason) e.id received in
                with_entry recorded e.id λ e'.
                  act_all env now recorded
                    (strategy.after_receive_nack received.face_table in_face interest reason e')
        ]
      ]

  unfoldable pub satisfy : Face → Data Name → Forwarder Name Cs → ℕ → Forwarder Name Cs
  unfolding with_entry cancel_timers act_all insert_dead_nonce_list clear_in_records
      delete_out_record set_straggler_timer
  satisfy in_face packet fw id = with_entry fw id λ e.
      let cancelled = change_entry cancel_timers id fw in
      let triggered =
        act_all env now cancelled
          (strategy.before_satisfy_interest fw.face_table (cancel_timers e) in_face packet) in
      with_entry triggered id λ e'.
        let dead_nonces =
          insert_dead_nonce_list env triggered.dead_nonces e' true packet.freshness_period
            (some in_face) in
        change_entry
          (λ e''.
            set_straggler_timer now true packet.freshness_period
              (delete_out_record (clear_in_records e'') in_face))
          id (record triggered { dead_nonces = dead_nonces })

  unfoldable pub satisfy_all :
      Face → Data Name → Forwarder Name Cs → List Face → List ℕ → Forwarder Name Cs × List Face
  unfolding satisfy downstreams_of
  satisfy_all in_face packet fw faces [] = (fw, faces)
  satisfy_all in_face packet fw faces (id ∷ ids) =
      satisfy_all in_face packet (satisfy in_face packet fw id) (downstreams_of now fw faces id) ids

module _ {Name Cs : Type 0} (store : ContentStore Name Cs) where
  unfoldable pub on_data_unsolicited :
      UnsolicitedDataPolicy → Forwarder Name Cs → Face → Data Name → Forwarder Name Cs
  unfolding decide
  on_data_unsolicited policy fw in_face packet = elim (decide policy in_face) [
    | drop_it ↦ fw
    | cache_it ↦ record fw { cs = store.insert_data fw.cs packet true }
  ]

module _ {Name Cs : Type 0} (env : Env Name) where
  unfoldable pub send_to_downstreams :
      Face → Data Name → Forwarder Name Cs → List Face → Forwarder Name Cs
  unfolding on_outgoing_data
  send_to_downstreams in_face packet fw [] = fw
  send_to_downstreams in_face packet fw (face ∷ faces) =
      send_to_downstreams in_face packet
        (if same_face face in_face then fw else on_outgoing_data env fw packet face) faces

module _ {Name Cs : Type 0} (env : Env Name) (strategy : Strategy Name)
    (store : ContentStore Name Cs) (now : ℕ) where
  unfoldable pub on_pending_interest :
      Forwarder Name Cs → Face → Interest Name → (duplicate : ℕ) → Forwarder Name Cs
  unfolding find_or_insert find_duplicate_nonce on_interest_loop cancel_timers has_in_records
      on_content_store_miss on_content_store_hit
  on_pending_interest fw in_face interest duplicate =
      let (inserted, e) = find_or_insert env.names fw interest in
      if not (find_duplicate_nonce e interest.nonce in_face == duplicate_nonce_none)
      then on_interest_loop inserted in_face interest duplicate
      else let cancelled = change_entry cancel_timers e.id inserted in
        if has_in_records e
        then on_content_store_miss env strategy now cancelled in_face e.id interest
        else let (cs, found) = store.find_data cancelled.cs interest in
          elim found [
            | none ↦
                on_content_store_miss env strategy now (record cancelled { cs = cs }) in_face e.id
                  interest
            | some packet ↦
                on_content_store_hit env now (record cancelled { cs = cs }) in_face e.id packet
          ]

  unfoldable pub on_incoming_interest :
      Forwarder Name Cs → Face → Interest Name → (duplicate : ℕ) → Forwarder Name Cs
  unfolding is_violating_localhost has on_interest_loop restore_queried on_pending_interest
  on_incoming_interest fw in_face interest duplicate =
      let received = count (λ c. record c { n_in_interests = c.n_in_interests + 1 }) fw in
      if is_violating_localhost env.names in_face interest.name
      then received
      else if has env.make_entry received.dead_nonces interest.name interest.nonce
      then on_interest_loop received in_face interest duplicate
      else on_pending_interest received in_face (restore_queried env interest) duplicate

  unfoldable pub on_matched_data :
      UnsolicitedDataPolicy → Forwarder Name Cs → Face → Data Name → Forwarder Name Cs
  unfolding on_data_unsolicited find_all_data_matches satisfy_all send_to_downstreams
  on_matched_data policy fw in_face packet = elim (find_all_data_matches env fw.pit packet) [
    | [] ↦ on_data_unsolicited store policy fw in_face packet
    | id ∷ ids ↦
        let (satisfied, downstreams) =
          satisfy_all env strategy now in_face packet
            (record fw { cs = store.insert_data fw.cs packet false }) [] (id ∷ ids) in
        send_to_downstreams env in_face packet satisfied downstreams
  ]

  unfoldable pub on_incoming_data :
      UnsolicitedDataPolicy → Forwarder Name Cs → Face → Data Name → Forwarder Name Cs
  unfolding is_violating_localhost restore_data on_matched_data
  on_incoming_data policy fw in_face packet =
      let received = count (λ c. record c { n_in_data = c.n_in_data + 1 }) fw in
      if is_violating_localhost env.names in_face packet.name
      then received
      else on_matched_data policy received in_face (restore_data env packet)
