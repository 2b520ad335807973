-- ===== src/Strategies/Common/Downstreams.antt =====
-- Whom Strategy::sendNacks (fw/strategy.cpp) sends to.
use ndn_share.Base.{arith, Bool, ◌≡◌, refl, ◌||◌, List, [], ◌∷◌, any_of}
use ndn_share.Face.{Face, same_face}
use ndn_share.Pit.{InRecord}
use ndn_share.Strategies.Common.{nack_downstreams}

abbrev pub is_at : Face → Face → Bool
is_at face other = same_face other face

any_of-same_face :
    (f face : Face) (faces : List Face)
    → f.address ≡ face.address
    → any_of (same_face f) faces ≡ any_of (is_at face) faces
any_of-same_face f face [] e = refl
any_of-same_face f face (g ∷ gs) e = ground (arith, e, any_of-same_face f face gs e)

module _ {Name : Type 0} where
  -- The faces are those of the in-records that are not done yet.
  nack_downstreams-any :
      (done : List Face) (records : List (InRecord Name)) (face : Face)
      → any_of (is_at face) (nack_downstreams [] done records) || any_of (is_at face) done
        ≡ any_of (λ (r : InRecord Name). same_face r.face face) records || any_of (is_at face) done
  unfolding nack_downstreams
  nack_downstreams-any done [] face = refl
  nack_downstreams-any done (r ∷ rs) face = grind (
    arith,
    any_of-same_face r.face face done,
    nack_downstreams-any done rs face,
    nack_downstreams-any (r.face ∷ done) rs face,
  )

  -- Without exceptions, the faces that sendNacks sends to are exactly those of the in-records.
  pub nack_downstreams-downstreams :
      (records : List (InRecord Name)) (face : Face)
      → any_of (is_at face) (nack_downstreams [] [] records)
        ≡ any_of (λ (r : InRecord Name). same_face r.face face) records
  nack_downstreams-downstreams records face = ground (arith, nack_downstreams-any [] records face)
