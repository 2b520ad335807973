-- ===== src/Fw/Outgoing/Scoped.antt =====
-- What the forwarder may give to faces, and that the outgoing pipelines keep to it.
use ndn_share.Base.{ℕ, ◌≡◌, Bool, true, ◌&&◌, not, Option, List, [], ◌∷◌, ℤ, arith}
use ndn_share.Face.{Face, is_multi_access, is_local}
use ndn_share.Packet.{Data, NameOps}
use ndn_share.Fw.State.{Forwarder, Sent, interest_to, data_to, nack_to}
use ndn_share.Fw.Outgoing.{
  Env, is_violating_localhost, with_entry, send_interest, on_outgoing_interest, on_outgoing_data,
  on_outgoing_nack, on_interest_reject, on_interest_finalize,
}

module _ {Name : Type 0} (names : NameOps Name) where
  -- Data under /localhost goes to local faces only, and a Nack never to a multi-access face.
  unfoldable pub is_allowed : Sent Name → Bool
  is_allowed (interest_to face interest) = true
  is_allowed (data_to face packet) =
      not (not (is_local face.scope) && names.is_prefix_of names.localhost packet.name)
  is_allowed (nack_to face interest reason) = not (is_multi_access face.link_type)

  unfoldable pub all_allowed : List (Sent Name) → Bool
  unfolding is_allowed
  all_allowed [] = true
  all_allowed (packet ∷ packets) = is_allowed packet && all_allowed packets

  abbrev pub Allowed : {Cs : Type 0} → Forwarder Name Cs → Type 0
  Allowed fw = all_allowed fw.outbox ≡ true

module _ {Name Cs : Type 0} (env : Env Name) (now : ℕ) (fw : Forwarder Name Cs)
    (v : Allowed env.names fw) where
  pub on_outgoing_data-Allowed :
      (packet : Data Name) (face : Face) → Allowed env.names (on_outgoing_data env fw packet face)
  unfolding on_outgoing_data is_violating_localhost all_allowed is_allowed
  on_outgoing_data-Allowed packet face = ground arith

  pub on_outgoing_nack-Allowed :
      (id : ℕ) (face : Face) (reason : ℕ) → Allowed env.names (on_outgoing_nack fw id face reason)
  unfolding on_outgoing_nack with_entry all_allowed is_allowed
  on_outgoing_nack-Allowed id face reason = ground arith

  pub on_outgoing_interest-Allowed :
      (id : ℕ) (face : Face) (new_nonce : Option ℕ)
      → Allowed env.names (on_outgoing_interest env now fw id face new_nonce)
  unfolding on_outgoing_interest with_entry send_interest all_allowed is_allowed
  on_outgoing_interest-Allowed id face new_nonce = ground arith

  pub on_interest_reject-Allowed : (id : ℕ) → Allowed env.names (on_interest_reject now fw id)
  unfolding on_interest_reject with_entry
  on_interest_reject-Allowed id = ground arith

  pub on_interest_finalize-Allowed :
      (id : ℕ) (is_satisfied : Bool) (freshness_period : ℤ)
      → Allowed env.names (on_interest_finalize env fw id is_satisfied freshness_period)
  unfolding on_interest_finalize with_entry
  on_interest_finalize-Allowed id is_satisfied freshness_period = ground arith
