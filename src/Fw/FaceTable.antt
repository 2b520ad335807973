-- ===== src/Fw/FaceTable.antt =====
-- fw/face-table.cpp: FaceTable, with the FaceId of every face, which is the face's own field in the
-- source. A face that has no FaceId here has the invalid one.
pub mod Ids
use ndn_share.Base.{
  ℕ, ◌+◌, Bool, true, false, ◌&&◌, not, Option, none, some, List, [], ◌==◌, if◌then◌else◌, length,
  ℕ_discrete,
}
use ndn_share.Base.Assoc.{lookup, insert, remove}
use ndn_share.Face.{Face, invalid_face_id, face_id_reserved_max}

pub record FaceTable : Type 0 where
  pub faces : List (ℕ × Face)
  pub last_face_id : ℕ
  pub ids : List (ℕ × ℕ)

unfoldable pub init : FaceTable
init = record { faces = []; last_face_id = face_id_reserved_max; ids = [] }

-- face.getId()
unfoldable pub id_of : FaceTable → Face → ℕ
id_of t face = elim (lookup ℕ_discrete face.address t.ids) [ none ↦ invalid_face_id | some id ↦ id ]

unfoldable pub get : FaceTable → ℕ → Option Face
get t id = lookup ℕ_discrete id t.faces

abbrev is_some {ℓ} : {A : Type ℓ} → Option A → Bool
is_some none = false
is_some (some a) = true

unfoldable pub add_impl : FaceTable → Face → ℕ → FaceTable
add_impl t face id = record t {
  faces = insert ℕ_discrete id face t.faces;
  ids = insert ℕ_discrete face.address id t.ids;
}

unfoldable pub add : FaceTable → Face → FaceTable
unfolding id_of get add_impl
add t face =
    if not (id_of t face == invalid_face_id) && is_some (get t (id_of t face))
    then t
    else add_impl (record t { last_face_id = t.last_face_id + 1 }) face (t.last_face_id + 1)

unfoldable pub add_reserved : FaceTable → Face → ℕ → FaceTable
unfolding add_impl
add_reserved t face id = add_impl t face id

-- The face that is removed, for the signal `beforeRemove`; the source asserts that there is one.
unfoldable pub remove_face : FaceTable → ℕ → FaceTable × Option Face
unfolding get
remove_face t id = elim (get t id) [
  | none ↦ (t, none)
  | some face ↦ (
    record t {
      faces = remove ℕ_discrete id t.faces;
      ids = insert ℕ_discrete face.address invalid_face_id t.ids;
    },
    some face,
  )
]
