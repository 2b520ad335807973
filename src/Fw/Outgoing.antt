-- ===== src/Fw/Outgoing.antt =====
-- fw/forwarder.cpp: the pipelines that end an Interest's way, and those that strategies call:
-- outgoing Interest, Data and Nack, reject, finalize, the timers, and the Dead Nonce List. An entry
-- that is named and no longer in the PIT is left alone. Logging has no definition.
pub mod Scoped
use ndn_share.Base.{
  ℕ, ◌+◌, Bool, true, false, ◌&&◌, ◌||◌, not, Option, none, some, List, [], ◌∷◌, ltb, ltb_ℤ, ◌==◌,
  if◌then◌else◌, max_element, ℤ, pos, negsuc,
}
use ndn_share.Face.{Face, is_local, is_multi_access, same_face, invalid_face_id}
use ndn_share.Packet.{Interest, Data, NameOps, nanoseconds}
use ndn_share.Pit.{
  Entry, InRecord, OutRecord, Straggler, get_in_record, get_out_record, delete_in_record,
  insert_or_update_out_record,
}
use ndn_share.Pit.Algorithm.{violates_scope, has_pending_out_records}
use ndn_share.DeadNonceList.{DeadNonceList, add}
use ndn_share.Fw.FaceTable.{id_of}
use ndn_share.Fw.Uri.{Uri, is_query, queried}
use ndn_share.Fw.State.{
  Forwarder, Counters, Sent, interest_to, data_to, nack_to, entry_of, change_entry, erase, send,
}

-- What the pipelines take from outside: names, ndn-cxx's matchesData, the hash of the Dead Nonce List, the search for a
-- close word (Forwarder::getFuzzWord), and ndn-cxx's default lifetime.
pub record Env (Name : Type 0) : Type 0 where
  pub names : NameOps Name
  pub matches_data : Interest Name → Data Name → Bool
  pub make_entry : Name → ℕ → ℕ
  pub fuzz_word : Uri → Uri
  pub default_lifetime : ℕ

abbrev pub straggler_time : ℕ
straggler_time = nanoseconds 100

module _ {Name : Type 0} where
  unfoldable pub cancel_timers : Entry Name → Entry Name
  cancel_timers e = record e { unsatisfy_timer = none; straggler_timer = none }

  unfoldable pub set_straggler_timer : (now : ℕ) → Bool → ℤ → Entry Name → Entry Name
  set_straggler_timer now is_satisfied freshness_period e = record e {
    straggler_timer = some (record {
      due = now + straggler_time;
      is_satisfied = is_satisfied;
      freshness_period = freshness_period;
    });
  }

  -- It fires when the last in-record expires.
  unfoldable pub set_unsatisfy_timer : Entry Name → Entry Name
  set_unsatisfy_timer e =
      elim (max_element (λ (a b : InRecord Name). ltb a.expiry b.expiry) e.in_records) [
        | none ↦ e
        | some last_expiring ↦ record e { unsatisfy_timer = some last_expiring.expiry }
      ]

  abbrev pub with_nonce : Interest Name → Option ℕ → Interest Name
  with_nonce interest none = interest
  with_nonce interest (some nonce) = record interest { nonce = nonce }

  -- The order by which the outgoing Interest is picked.
  unfoldable pub picked_before : Face → InRecord Name → InRecord Name → Bool
  picked_before out_face a b =
      let is_out_face_a = same_face a.face out_face in
      let is_out_face_b = same_face b.face out_face in
      let is_older = ltb a.last_renewed b.last_renewed in
      if is_out_face_a then not is_out_face_b || is_older else not is_out_face_b && is_older

-- /localhost scope control
unfoldable pub is_violating_localhost : {Name : Type 0} → NameOps Name → Face → Name → Bool
is_violating_localhost names face name =
    not (is_local face.scope) && names.is_prefix_of names.localhost name

module _ {Name Cs : Type 0} where
  -- How a pipeline works on the entry that it is given.
  unfoldable pub with_entry :
      Forwarder Name Cs → ℕ → (Entry Name → Forwarder Name Cs) → Forwarder Name Cs
  with_entry fw id f = elim (entry_of fw.pit id) [ none ↦ fw | some e ↦ f e ]

  abbrev pub count : (Counters → Counters) → Forwarder Name Cs → Forwarder Name Cs
  count f fw = record fw { counters = f fw.counters }

  unfoldable pub send_interest : Face → Interest Name → Forwarder Name Cs → Forwarder Name Cs
  send_interest out_face interest fw =
      count (λ c. record c { n_out_interests = c.n_out_interests + 1 })
        (send (interest_to out_face interest) fw)

-- time::milliseconds(-1), the default of `dataFreshnessPeriod`
abbrev pub no_freshness_period : ℤ
no_freshness_period = negsuc 0

module _ {Name : Type 0} (env : Env Name) where
  -- The name under which a query is sent on: the queried one that came with it, or one made of its
  -- last word.
  unfoldable pub query_name : Interest Name → Name
  query_name interest = elim interest.queried_name [
    | some name ↦ name
    | none ↦ queried env.names env.fuzz_word interest.name
  ]

  -- What is sent of the Interest that was picked. A query's name is changed in the picked in-record
  -- while the Interest is sent, and put back; an Interest with a new Nonce is a copy that was made
  -- before, so that it keeps its name.
  unfoldable pub sent_interest : Interest Name → (new_nonce : Option ℕ) → Interest Name
  unfolding query_name
  sent_interest interest (some nonce) = record interest { nonce = nonce }
  sent_interest interest none =
      if is_query env.names interest.name
      then record interest { name = query_name interest }
      else interest

  unfoldable pub need_dnl :
      DeadNonceList → Entry Name → (is_satisfied : Bool) → (freshness_period : ℤ) → Bool
  need_dnl dnl e true (negsuc _) = false
  need_dnl dnl e true (pos ms) = e.interest.must_be_fresh && ltb (nanoseconds ms) dnl.lifetime
  need_dnl dnl e false freshness_period = true

  unfoldable pub add_nonces : DeadNonceList → Name → List OutRecord → DeadNonceList
  unfolding add
  add_nonces dnl name [] = dnl
  add_nonces dnl name (r ∷ rs) = add_nonces (add env.make_entry dnl name r.last_nonce) name rs

  unfoldable pub insert_dead_nonce_list :
      DeadNonceList
      → Entry Name
      → (is_satisfied : Bool) → (freshness_period : ℤ) → (upstream : Option Face) → DeadNonceList
  unfolding need_dnl add_nonces add get_out_record
  insert_dead_nonce_list dnl e is_satisfied freshness_period upstream =
      if not (need_dnl dnl e is_satisfied freshness_period) then dnl else elim upstream [
        | none ↦ add_nonces dnl e.interest.name e.out_records
        | some face ↦ elim (get_out_record e face) [
          | none ↦ dnl
          | some r ↦ add env.make_entry dnl e.interest.name r.last_nonce
        ]
      ]

module _ {Name Cs : Type 0} (env : Env Name) where
  -- `new_nonce` is what the random generator gives where wantNewNonce is set. The source asserts
  -- that there is an in-record.
  unfoldable pub on_outgoing_interest :
      (now : ℕ) → Forwarder Name Cs → ℕ → Face → (new_nonce : Option ℕ) → Forwarder Name Cs
  unfolding with_entry id_of violates_scope picked_before sent_interest send_interest
      insert_or_update_out_record
  on_outgoing_interest now fw id out_face new_nonce = with_entry fw id λ e.
      if id_of fw.face_table out_face == invalid_face_id
      then fw
      else if violates_scope env.names e out_face
      then fw
      else elim (max_element (picked_before out_face) e.in_records) [
        | none ↦ fw
        | some picked ↦ send_interest out_face (sent_interest env picked.interest new_nonce) (
            change_entry
              (λ e.
                insert_or_update_out_record env.default_lifetime now e out_face
                  (with_nonce picked.interest new_nonce))
              id fw)
      ]

  unfoldable pub on_outgoing_data : Forwarder Name Cs → Data Name → Face → Forwarder Name Cs
  unfolding id_of is_violating_localhost
  on_outgoing_data fw packet out_face =
      if id_of fw.face_table out_face == invalid_face_id
      then fw
      else if is_violating_localhost env.names out_face packet.name
      then fw
      else count (λ c. record c { n_out_data = c.n_out_data + 1 })
          (send (data_to out_face packet) fw)

  unfoldable pub on_interest_finalize :
      Forwarder Name Cs → ℕ → (is_satisfied : Bool) → (freshness_period : ℤ) → Forwarder Name Cs
  unfolding with_entry insert_dead_nonce_list erase
  on_interest_finalize fw id is_satisfied freshness_period = with_entry fw id λ e. record fw {
    dead_nonces = insert_dead_nonce_list env fw.dead_nonces e is_satisfied freshness_period none;
    pit = erase id fw.pit;
  }

module _ {Name Cs : Type 0} where
  unfoldable pub on_interest_reject : (now : ℕ) → Forwarder Name Cs → ℕ → Forwarder Name Cs
  unfolding with_entry has_pending_out_records cancel_timers set_straggler_timer
  on_interest_reject now fw id = with_entry fw id λ e.
      if has_pending_out_records now e
      then fw
      else change_entry (λ e. set_straggler_timer now false no_freshness_period (cancel_timers e))
          id fw

  unfoldable pub on_outgoing_nack : Forwarder Name Cs → ℕ → Face → (reason : ℕ) → Forwarder Name Cs
  unfolding with_entry id_of get_in_record delete_in_record
  on_outgoing_nack fw id out_face reason = with_entry fw id λ e.
      if id_of fw.face_table out_face == invalid_face_id
      then fw
      else elim (get_in_record e out_face) [
        | none ↦ fw
        | some in_record ↦
            if is_multi_access out_face.link_type
            then fw
            else count (λ c. record c { n_out_nacks = c.n_out_nacks + 1 })
                (send (nack_to out_face in_record.interest reason)
                  (change_entry (λ e. delete_in_record e out_face) id fw))
      ]
