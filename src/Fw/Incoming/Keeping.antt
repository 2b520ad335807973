-- ===== src/Fw/Incoming/Keeping.antt =====
-- The incoming pipelines, and all that strategies do in them, keep to what may be given to faces.
use ndn_share.Base.{
  ℕ, ◌+◌, ◌≡◌, refl, Option-cases, inl, inr, false, none, List, [], ◌∷◌, if◌then◌else◌, arith,
}
use ndn_share.Face.{Face, same_face}
use ndn_share.Packet.{Interest, Data, NameOps}
use ndn_share.Pit.{Entry, insert_or_update_in_record}
use ndn_share.Fw.FaceTable.{get}
use ndn_share.Fw.State.{Forwarder, entry_of, find_or_insert, change_entry}
use ndn_share.Fw.Outgoing.{
  Env, count, with_entry, cancel_timers, set_unsatisfy_timer, on_outgoing_data,
}
use ndn_share.Fw.Outgoing.Scoped.{
  Allowed, all_allowed, is_allowed, on_outgoing_data-Allowed, on_outgoing_nack-Allowed,
  on_outgoing_interest-Allowed, on_interest_reject-Allowed, on_interest_finalize-Allowed,
}
use ndn_share.Fw.Interfaces.{
  Action, send_interest, send_nack, reject_pending_interest, set_suppression_interval, Strategy,
  ContentStore, UnsolicitedDataPolicy,
}
use ndn_share.Fw.Incoming.{
  on_interest_loop, act, act_all, on_interest_unsatisfied, on_content_store_miss,
  on_content_store_hit, on_pending_interest, on_incoming_interest, on_incoming_nack, satisfy,
  satisfy_all, downstreams_of, send_to_downstreams, on_data_unsolicited, on_matched_data,
  on_incoming_data, find_all_data_matches, restore_queried, restore_data,
}

module _ {Name Cs : Type 0} (env : Env Name) (now : ℕ) where
  act-Allowed :
      (fw : Forwarder Name Cs) (a : Action)
      → Allowed env.names fw
      → Allowed env.names (act env now fw a)
  unfolding act
  act-Allowed fw (send_interest id face new_nonce) v =
      on_outgoing_interest-Allowed env now fw v id face new_nonce
  act-Allowed fw (send_nack id face reason) v = on_outgoing_nack-Allowed env now fw v id face reason
  act-Allowed fw (reject_pending_interest id) v = on_interest_reject-Allowed env now fw v id
  act-Allowed fw (set_suppression_interval id interval) v = v

  act_all-Allowed :
      (fw : Forwarder Name Cs) (actions : List Action)
      → Allowed env.names fw
      → Allowed env.names (act_all env now fw actions)
  unfolding act_all
  act_all-Allowed fw [] v = v
  act_all-Allowed fw (a ∷ actions) v =
      act_all-Allowed (act env now fw a) actions (act-Allowed fw a v)

  on_content_store_hit-Allowed :
      (fw : Forwarder Name Cs) (in_face : Face) (id : ℕ) (packet : Data Name)
      → Allowed env.names fw
      → Allowed env.names (on_content_store_hit env now fw in_face id packet)
  unfolding on_content_store_hit
  on_content_store_hit-Allowed fw in_face id packet v =
      on_outgoing_data-Allowed env now _ v packet in_face

  with_entry-Allowed :
      (fw : Forwarder Name Cs) (id : ℕ) (f : Entry Name → Forwarder Name Cs)
      → Allowed env.names fw
      → ((e : Entry Name) → Allowed env.names (f e))
      → Allowed env.names (with_entry fw id f)
  unfolding with_entry
  with_entry-Allowed fw id f v w = elim (Option-cases (entry_of fw.pit id)) [
    | inl missing ↦ rw (missing, with_entry) v
    | inr (e, present) ↦ rw (present, with_entry) (w e)
  ]

module _ {Name Cs : Type 0} (env : Env Name) (strategy : Strategy Name) (now : ℕ)
    (fw : Forwarder Name Cs) (v : Allowed env.names fw) where
  pub on_interest_unsatisfied-Allowed :
      (id : ℕ) → Allowed env.names (on_interest_unsatisfied env strategy now fw id)
  unfolding on_interest_unsatisfied with_entry
  on_interest_unsatisfied-Allowed id =
      grind (arith, on_interest_finalize-Allowed env now, act_all-Allowed env now)

  on_content_store_miss-Allowed :
      (in_face : Face) (id : ℕ) (interest : Interest Name)
      → Allowed env.names (on_content_store_miss env strategy now fw in_face id interest)
  unfolding on_content_store_miss with_entry
  on_content_store_miss-Allowed in_face id interest =
      elim (Option-cases interest.next_hop_face_id) [
        | inl e ↦
            rw (e, on_content_store_miss)
              (with_entry-Allowed env now recorded id
                (λ e.
                  act_all env now recorded
                    (strategy.after_receive_interest fw.face_table in_face interest e))
                v
                (λ e.
                  act_all-Allowed env now recorded
                    (strategy.after_receive_interest fw.face_table in_face interest e) v))
        | inr (next_hop, e) ↦
            rw (e, on_content_store_miss)
              (elim (Option-cases (get fw.face_table next_hop)) [
                | inl missing ↦ rw missing v
                | inr (face, present) ↦
                    rw present (on_outgoing_interest-Allowed env now recorded v id face none)
              ])
      ]
    where
      recorded : Forwarder Name Cs
      recorded =
          change_entry
            (λ e.
              set_unsatisfy_timer
                (insert_or_update_in_record env.default_lifetime now e in_face interest))
            id fw

  pub on_incoming_nack-Allowed :
      (in_face : Face) (interest : Interest Name) (reason : ℕ)
      → Allowed env.names (on_incoming_nack env strategy now fw in_face interest reason)
  unfolding on_incoming_nack with_entry
  on_incoming_nack-Allowed in_face interest reason = grind (arith, act_all-Allowed env now)

  satisfy-Allowed :
      (in_face : Face) (packet : Data Name) (id : ℕ)
      → Allowed env.names (satisfy env strategy now in_face packet fw id)
  unfolding satisfy with_entry
  satisfy-Allowed in_face packet id = grind (arith, act_all-Allowed env now)

module _ {Name Cs : Type 0} (env : Env Name) (strategy : Strategy Name) (now : ℕ) where
  satisfy_all-Allowed :
      (in_face : Face) (packet : Data Name) (fw : Forwarder Name Cs) (faces : List Face)
      (ids : List ℕ)
      → Allowed env.names fw
      → Allowed env.names (satisfy_all env strategy now in_face packet fw faces ids).0
  unfolding satisfy_all
  satisfy_all-Allowed in_face packet fw faces [] v = v
  satisfy_all-Allowed in_face packet fw faces (id ∷ ids) v =
      satisfy_all-Allowed in_face packet (satisfy env strategy now in_face packet fw id)
        (downstreams_of now fw faces id) ids
        (satisfy-Allowed env strategy now fw v in_face packet id)

  send_to_downstreams-Allowed :
      (in_face : Face) (packet : Data Name) (fw : Forwarder Name Cs) (faces : List Face)
      → Allowed env.names fw
      → Allowed env.names (send_to_downstreams env in_face packet fw faces)
  unfolding send_to_downstreams
  send_to_downstreams-Allowed in_face packet fw [] v = v
  send_to_downstreams-Allowed in_face packet fw (face ∷ faces) v =
      send_to_downstreams-Allowed in_face packet
        (if same_face face in_face then fw else on_outgoing_data env fw packet face) faces
        (grind (arith, on_outgoing_data-Allowed env now))

module _ {Name Cs : Type 0} (fw : Forwarder Name Cs) where
  find_or_insert-outbox :
      (names : NameOps Name) (interest : Interest Name)
      → (find_or_insert names fw interest).0.outbox ≡ fw.outbox
  unfolding find_or_insert
  find_or_insert-outbox names interest = ground arith

  on_interest_loop-Allowed :
      (names : NameOps Name) (in_face : Face) (interest : Interest Name) (duplicate : ℕ)
      → Allowed names fw
      → Allowed names (on_interest_loop fw in_face interest duplicate)
  unfolding on_interest_loop all_allowed is_allowed
  on_interest_loop-Allowed names in_face interest duplicate v = ground arith

module _ {Name Cs : Type 0} (env : Env Name) (strategy : Strategy Name)
    (store : ContentStore Name Cs) (now : ℕ) where
  on_pending_interest-Allowed :
      (fw : Forwarder Name Cs)
      → Allowed env.names fw
      → (in_face : Face) (interest : Interest Name) (duplicate : ℕ)
      → Allowed env.names (on_pending_interest env strategy store now fw in_face interest duplicate)
  unfolding on_pending_interest
  on_pending_interest-Allowed fw v in_face interest duplicate =
      elim (Option-cases (store.find_data cancelled.cs interest).1) [
        | inl missing ↦ ground (
          arith,
          missing,
          looped,
          missed cancelled inserted,
          missed (record cancelled { cs = (store.find_data cancelled.cs interest).0 }) inserted,
        )
        | inr (packet, present) ↦ ground (
          arith,
          present,
          looped,
          missed cancelled inserted,
          on_content_store_hit-Allowed env now
              (record cancelled { cs = (store.find_data cancelled.cs interest).0 }) in_face e.id
              packet inserted,
        )
      ]
    where
      inserted : Allowed env.names (find_or_insert env.names fw interest).0
      inserted = rw (find_or_insert-outbox fw env.names interest) v

      e : Entry Name
      e = (find_or_insert env.names fw interest).1

      cancelled : Forwarder Name Cs
      cancelled = change_entry cancel_timers e.id (find_or_insert env.names fw interest).0

      looped :
          Allowed env.names
            (on_interest_loop (find_or_insert env.names fw interest).0 in_face interest duplicate)
      looped = on_interest_loop-Allowed _ env.names in_face interest duplicate inserted

      missed :
          (fw : Forwarder Name Cs)
          → Allowed env.names fw
          → Allowed env.names (on_content_store_miss env strategy now fw in_face e.id interest)
      missed fw v = on_content_store_miss-Allowed env strategy now fw v in_face e.id interest

  pub on_incoming_interest-Allowed :
      (fw : Forwarder Name Cs)
      → Allowed env.names fw
      → (in_face : Face) (interest : Interest Name) (duplicate : ℕ)
      → Allowed env.names
          (on_incoming_interest env strategy store now fw in_face interest duplicate)
  unfolding on_incoming_interest
  on_incoming_interest-Allowed fw v in_face interest duplicate = ground (
    arith,
    on_interest_loop-Allowed (received fw) env.names in_face interest duplicate v,
    on_pending_interest-Allowed (received fw) v in_face (restore_queried env interest) duplicate,
  )
    where
      received : Forwarder Name Cs → Forwarder Name Cs
      received = count (λ c. record c { n_in_interests = c.n_in_interests + 1 })

  on_data_unsolicited-Allowed :
      (policy : UnsolicitedDataPolicy) (fw : Forwarder Name Cs)
      → Allowed env.names fw
      → (in_face : Face) (packet : Data Name)
      → Allowed env.names (on_data_unsolicited store policy fw in_face packet)
  unfolding on_data_unsolicited
  on_data_unsolicited-Allowed policy fw v in_face packet = ground arith

  on_matched_data-Allowed :
      (policy : UnsolicitedDataPolicy) (fw : Forwarder Name Cs)
      → Allowed env.names fw
      → (in_face : Face) (packet : Data Name)
      → Allowed env.names (on_matched_data env strategy store now policy fw in_face packet)
  unfolding on_matched_data on_data_unsolicited
  on_matched_data-Allowed policy fw v in_face packet =
      go (find_all_data_matches env fw.pit packet) refl
    where
      inserted : Forwarder Name Cs
      inserted = record fw { cs = store.insert_data fw.cs packet false }

      satisfied : List ℕ → Forwarder Name Cs × List Face
      satisfied ids = satisfy_all env strategy now in_face packet inserted [] ids

      go :
          (ids : List ℕ)
          → find_all_data_matches env fw.pit packet ≡ ids
          → Allowed env.names (on_matched_data env strategy store now policy fw in_face packet)
      go [] e = rw (e, on_matched_data) (on_data_unsolicited-Allowed policy fw v in_face packet)
      go (id ∷ ids) e =
          rw (e, on_matched_data)
            (send_to_downstreams-Allowed env strategy now in_face packet (satisfied (id ∷ ids)).0
              (satisfied (id ∷ ids)).1
              (satisfy_all-Allowed env strategy now in_face packet inserted [] (id ∷ ids) v))

  pub on_incoming_data-Allowed :
      (policy : UnsolicitedDataPolicy) (fw : Forwarder Name Cs)
      → Allowed env.names fw
      → (in_face : Face) (packet : Data Name)
      → Allowed env.names (on_incoming_data env strategy store now policy fw in_face packet)
  unfolding on_incoming_data
  on_incoming_data-Allowed policy fw v in_face packet =
      ground
        (arith, on_matched_data-Allowed policy (received fw) v in_face (restore_data env packet))
    where
      received : Forwarder Name Cs → Forwarder Name Cs
      received = count (λ c. record c { n_in_data = c.n_in_data + 1 })
