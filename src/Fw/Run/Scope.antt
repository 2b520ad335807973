-- ===== src/Fw/Run/Scope.antt =====
-- What a forwarder gives to faces in a run.
use ndn_share.Base.{ℕ, ◌≡◌, true, arith}
use ndn_share.Fw.State.{Forwarder}
use ndn_share.Fw.Interfaces.{Strategy, ContentStore, UnsolicitedDataPolicy}
use ndn_share.Fw.Outgoing.{Env}
use ndn_share.Fw.Outgoing.Scoped.{all_allowed, Allowed, on_interest_finalize-Allowed}
use ndn_share.Fw.Incoming.Keeping.{
  on_incoming_interest-Allowed, on_incoming_data-Allowed, on_incoming_nack-Allowed,
  on_interest_unsatisfied-Allowed,
}
use ndn_share.Fw.Run.{
  on_face_removed, Step, interest_arrives, data_arrives, nack_arrives, unsatisfy_timer_fires,
  straggler_timer_fires, face_added, face_removed, Run, begin, then_step,
}

module _ {Name Cs : Type 0} where
  on_face_removed-outbox :
      (fw : Forwarder Name Cs) (id : ℕ) → (on_face_removed fw id).outbox ≡ fw.outbox
  unfolding on_face_removed
  on_face_removed-outbox fw id = ground arith

module _ {Name Cs : Type 0} (env : Env Name) (strategy : (now : ℕ) → Strategy Name)
    (store : (now : ℕ) → ContentStore Name Cs) (policy : UnsolicitedDataPolicy)
    (duplicate : ℕ) where
  -- One step keeps what may be given to faces.
  Step-Allowed :
      (now : ℕ) (fw next : Forwarder Name Cs)
      → Step env strategy store policy duplicate now fw next
      → Allowed env.names fw
      → Allowed env.names next
  Step-Allowed now fw _ (interest_arrives in_face interest) v =
      on_incoming_interest-Allowed env (strategy now) (store now) now fw v in_face interest
        duplicate
  Step-Allowed now fw _ (data_arrives in_face packet) v =
      on_incoming_data-Allowed env (strategy now) (store now) now policy fw v in_face packet
  Step-Allowed now fw _ (nack_arrives in_face interest reason) v =
      on_incoming_nack-Allowed env (strategy now) now fw v in_face interest reason
  Step-Allowed now fw _ (unsatisfy_timer_fires e id due _ _ _) v =
      on_interest_unsatisfied-Allowed env (strategy now) now fw v id
  Step-Allowed now fw _ (straggler_timer_fires e id timer _ _ _) v =
      on_interest_finalize-Allowed env now fw v id timer.is_satisfied timer.freshness_period
  Step-Allowed now fw _ (face_added face) v = v
  Step-Allowed now fw _ (face_removed id) v = rw (on_face_removed-outbox fw id) v

  -- Whatever arrives, whichever timers fire, and whatever the strategy does, a forwarder never gives
  -- Data under /localhost to a non-local face, nor a Nack to a multi-access face: if nothing of the
  -- kind was sent at the start of a run, nothing of the kind is sent at its end.
  pub Run-Allowed :
      (start : Forwarder Name Cs) (now : ℕ) (fw : Forwarder Name Cs)
      → Run env strategy store policy duplicate start now fw
      → Allowed env.names start
      → all_allowed env.names fw.outbox ≡ true
  Run-Allowed start now _ (begin _) v = v
  Run-Allowed start now _ (then_step before _ s) v =
      Step-Allowed _ _ _ s (Run-Allowed start _ _ before v)
