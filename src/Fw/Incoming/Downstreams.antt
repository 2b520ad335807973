-- ===== src/Fw/Incoming/Downstreams.antt =====
-- Data goes to every pending downstream, and the entries that it satisfies.
use mathlib.Core.List.{map, reverse_aux}
use ndn_share.Base.{
  Bool-cases, inl, inr, ◌∙◌, if◌then◌else◌, ◌==◌, ℕ, ◌≡◌, ◌≢◌, refl, Bool, false, ◌&&◌, ◌||◌, not,
  List, [], ◌∷◌, ltb, any_of, arith,
}
use ndn_share.Face.{Face, same_face, invalid_face_id}
use ndn_share.Packet.{Data}
use ndn_share.Pit.{InRecord}
use ndn_share.Fw.FaceTable.{FaceTable, id_of}
use ndn_share.Fw.State.{Forwarder, data_to}
use ndn_share.Fw.Outgoing.{Env, is_violating_localhost, on_outgoing_data}
use ndn_share.Fw.Incoming.{add_downstreams, send_to_downstreams}

abbrev pub is_at : Face → Face → Bool
is_at face other = same_face other face

-- The two tests are alike at faces of one address.
any_of-is_at :
    (f face : Face) (faces : List Face)
    → f.address ≡ face.address
    → any_of (λ other. same_face other f) faces ≡ any_of (is_at face) faces
any_of-is_at f face [] e = refl
any_of-is_at f face (g ∷ gs) e = ground (arith, e, any_of-is_at f face gs e)

module _ {Name : Type 0} where
  -- The pending downstreams are exactly the faces that were already there and those of the in-records
  -- that have not expired.
  pub add_downstreams-any :
      (now : ℕ) (faces : List Face) (records : List (InRecord Name)) (face : Face)
      → any_of (is_at face) (add_downstreams now faces records)
        ≡ any_of (is_at face) faces
          || any_of (λ (r : InRecord Name). ltb now r.expiry && same_face r.face face) records
  unfolding add_downstreams
  add_downstreams-any now faces [] face = ground arith
  add_downstreams-any now faces (r ∷ rs) face = grind (
    arith,
    any_of-is_at r.face face faces,
    add_downstreams-any now faces rs face,
    add_downstreams-any now (r.face ∷ faces) rs face,
  )

abbrev pub select : (Face → Bool) → List Face → List Face
select p [] = []
select p (face ∷ faces) = if p face then face ∷ select p faces else select p faces

module _ {Name : Type 0} (env : Env Name) (in_face : Face) (packet : Data Name) where
  -- A downstream that the Data may go to: it is not where the Data came from, it is in the face
  -- table, and Data under /localhost goes to local faces only.
  unfoldable pub may_have : FaceTable → Face → Bool
  may_have table face =
      not (same_face face in_face)
      && not (id_of table face == invalid_face_id)
      && not (is_violating_localhost env.names face packet.name)

module _ {Name Cs : Type 0} (env : Env Name) (in_face : Face) (packet : Data Name) where
  on_outgoing_data-may_have :
      (fw : Forwarder Name Cs) (face : Face)
      → same_face face in_face ≡ false
      → ((on_outgoing_data env fw packet face).face_table ≡ fw.face_table)
        × ((on_outgoing_data env fw packet face).outbox ≡ (
            if may_have env in_face packet fw.face_table face
            then data_to face packet ∷ fw.outbox
            else fw.outbox))
  unfolding on_outgoing_data may_have
  on_outgoing_data-may_have fw face other = (ground arith, ground (arith, other))

  -- Exactly the downstreams that may have the Data are given it, this Data, each as often as it is
  -- among them and in their order, after what was sent before. (The outbox has the newest first.)
  pub send_to_downstreams-outbox :
      (fw : Forwarder Name Cs) (faces : List Face)
      → (send_to_downstreams env in_face packet fw faces).outbox
        ≡ reverse_aux
            (map
              (λ face. data_to face packet)
              (select (may_have env in_face packet fw.face_table) faces))
            fw.outbox
  unfolding send_to_downstreams
  send_to_downstreams-outbox fw [] = refl
  send_to_downstreams-outbox fw (f ∷ fs) = elim (Bool-cases (same_face f in_face)) [
    | inl from_there ↦
        let may_not : may_have env in_face packet fw.face_table f ≡ false =
          unfold may_have in rw from_there refl in
        rw (from_there, send_to_downstreams, may_not) (send_to_downstreams-outbox fw fs)
    | inr other ↦
        let (table, sent) = on_outgoing_data-may_have fw f other in
        let rest = send_to_downstreams-outbox (on_outgoing_data env fw packet f) fs in
        elim (Bool-cases (may_have env in_face packet fw.face_table f)) [
          | inl may ↦ rw (other, send_to_downstreams, may) (rest ∙ rw (table, sent, may) refl)
          | inr may_not ↦
              rw (other, send_to_downstreams, may_not) (rest ∙ rw (table, sent, may_not) refl)
        ]
  ]

  pub select-any :
      (fw : Forwarder Name Cs) (faces : List Face) (face : Face)
      → id_of fw.face_table face ≢ invalid_face_id
      → env.names.is_prefix_of env.names.localhost packet.name ≡ false
      → same_face face in_face ≡ false
      → any_of (is_at face) (select (may_have env in_face packet fw.face_table) faces)
        ≡ any_of (is_at face) faces
  unfolding may_have id_of is_violating_localhost
  select-any fw [] face known permitted other = refl
  select-any fw (f ∷ fs) face known permitted other =
      ground (arith, known, permitted, other, select-any fw fs face known permitted other)
