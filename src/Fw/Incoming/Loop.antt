-- ===== src/Fw/Incoming/Loop.antt =====
-- Interests that loop: the Nonce is in the Dead Nonce List, or the PIT entry has it already.
use ndn_share.Base.{
  ℕ, ◌+◌, ◌≡◌, ◌≢◌, refl, ◌⊎◌, inl, inr, true, false, some, ◌∷◌, arith, Bool-cases,
}
use ndn_share.Face.{Face, is_multi_access}
use ndn_share.Packet.{Interest}
use ndn_share.Pit.{Entry}
use ndn_share.Pit.Algorithm.{find_duplicate_nonce, duplicate_nonce_none}
use ndn_share.DeadNonceList.{has}
use ndn_share.Fw.State.{Forwarder, nack_to, find, find_or_insert}
use ndn_share.Fw.Interfaces.{Strategy, ContentStore}
use ndn_share.Fw.Outgoing.{Env, is_violating_localhost, count}
use ndn_share.Fw.Incoming.{
  on_interest_loop, on_pending_interest, restore_queried, on_incoming_interest,
}

module _ {Name Cs : Type 0} (fw : Forwarder Name Cs) (in_face : Face) (duplicate : ℕ) where
  -- The tables are untouched, and no more than a Nack goes back.
  pub record IsRefused (next : Forwarder Name Cs) : Type 0 where
    pub same_pit : next.pit ≡ fw.pit
    pub same_cs : next.cs ≡ fw.cs
    pub same_dead_nonces : next.dead_nonces ≡ fw.dead_nonces
    pub nacked :
        (next.outbox ≡ fw.outbox)
        ⊎ ((interest : Interest Name) × (next.outbox
              ≡ nack_to in_face interest duplicate ∷ fw.outbox))

  on_interest_loop-IsRefused :
      (interest : Interest Name) → IsRefused (on_interest_loop fw in_face interest duplicate)
  unfolding on_interest_loop
  on_interest_loop-IsRefused interest = record {
    same_pit = ground arith;
    same_cs = ground arith;
    same_dead_nonces = ground arith;
    nacked = elim (Bool-cases (is_multi_access in_face.link_type)) [
      | inl e ↦ inl (rw e refl)
      | inr e ↦ inr (interest, rw e refl)
    ];
  }

module _ {Name Cs : Type 0} (fw : Forwarder Name Cs) (in_face : Face) (duplicate : ℕ) where
  abbrev received : Forwarder Name Cs
  received = count (λ c. record c { n_in_interests = c.n_in_interests + 1 }) fw

  -- What is counted is no table.
  uncounted :
      (interest : Interest Name)
      → IsRefused fw in_face duplicate (on_interest_loop received in_face interest duplicate)
  uncounted interest =
      let r = on_interest_loop-IsRefused received in_face duplicate interest in
      record {
        same_pit = r.same_pit;
        same_cs = r.same_cs;
        same_dead_nonces = r.same_dead_nonces;
        nacked = r.nacked;
      }

module _ {Name Cs : Type 0} (env : Env Name) (strategy : Strategy Name)
    (store : ContentStore Name Cs) (now : ℕ) (fw : Forwarder Name Cs) (in_face : Face)
    (interest : Interest Name) (duplicate : ℕ) where
  on_pending_interest-loop :
      (e : Entry Name)
      → find env.names fw.pit interest ≡ some e
      → find_duplicate_nonce e interest.nonce in_face ≢ duplicate_nonce_none
      → on_pending_interest env strategy store now fw in_face interest duplicate
        ≡ on_interest_loop fw in_face interest duplicate
  unfolding on_pending_interest find_or_insert
  on_pending_interest-loop e found repeated = grind (arith, found, repeated)

module _ {Name Cs : Type 0} (env : Env Name) (strategy : Strategy Name)
    (store : ContentStore Name Cs) (now : ℕ) (fw : Forwarder Name Cs) (in_face : Face)
    (interest : Interest Name) (duplicate : ℕ) where
  -- An Interest whose name and Nonce the Dead Nonce List has, or whose Nonce is in a record of its
  -- PIT entry in a way that findDuplicateNonce reports, changes neither PIT, Content Store nor Dead
  -- Nonce List, and is not forwarded: no more than a Nack goes back to its face. It is one that
  -- /localhost scope control lets in.
  pub on_incoming_interest-loop :
      is_violating_localhost env.names in_face interest.name ≡ false
      → (has env.make_entry fw.dead_nonces interest.name interest.nonce ≡ true)
        ⊎ ((e : Entry Name) × (find env.names fw.pit (restore_queried env interest) ≡ some e)
            × (find_duplicate_nonce e (restore_queried env interest).nonce in_face
                ≢ duplicate_nonce_none))
      → IsRefused fw in_face duplicate
          (on_incoming_interest env strategy store now fw in_face interest duplicate)
  unfolding on_incoming_interest
  on_incoming_interest-loop permitted (inl dead) =
      rw (permitted, dead, on_incoming_interest) (uncounted fw in_face duplicate interest)
  on_incoming_interest-loop permitted (inr (entry, found, repeated)) =
      elim (Bool-cases (has env.make_entry fw.dead_nonces interest.name interest.nonce)) [
        | inl dead ↦
            rw (permitted, dead, on_incoming_interest) (uncounted fw in_face duplicate interest)
        | inr fresh ↦
            rw (permitted, fresh, on_incoming_interest)
              (rw
                (on_pending_interest-loop env strategy store now (received fw in_face duplicate)
                  in_face (restore_queried env interest) duplicate entry found repeated)
                (uncounted fw in_face duplicate (restore_queried env interest)))
      ]
