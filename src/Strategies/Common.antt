-- ===== src/Strategies/Common.antt =====
-- fw/strategy.cpp: what the strategies share. The FIB lookup (Strategy::lookupFib) is a parameter of
-- each of them.
pub mod Downstreams
use ndn_share.Base.{arith, Bool, ◌≡◌, refl, ℕ, ◌||◌, List, [], ◌∷◌, map, if◌then◌else◌, any_of}
use ndn_share.Face.{Face, same_face}
use ndn_share.Pit.{Entry, InRecord}
use ndn_share.Fw.Interfaces.{Action, send_nack}

module _ {Name : Type 0} where
  -- The faces of the in-records but those excepted, each once. The source has them in a set, whose
  -- order is unspecified.
  unfoldable pub nack_downstreams :
      (except_faces done : List Face) → List (InRecord Name) → List Face
  nack_downstreams except_faces done [] = []
  nack_downstreams except_faces done (r ∷ rs) =
      if any_of (same_face r.face) except_faces || any_of (same_face r.face) done
      then nack_downstreams except_faces done rs
      else r.face ∷ nack_downstreams except_faces (r.face ∷ done) rs

  unfoldable pub send_nacks : Entry Name → (reason : ℕ) → (except_faces : List Face) → List Action
  unfolding nack_downstreams
  send_nacks e reason except_faces =
      map (λ face. send_nack e.id face reason) (nack_downstreams except_faces [] e.in_records)
