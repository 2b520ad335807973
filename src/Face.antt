-- ===== src/Face.antt =====
-- A face, as forwarding sees it: its identity, which stands for the address that the source
-- compares, and the scope and link type that it keeps for life. Its FaceId, which changes when it
-- is removed, is kept by the face table (Fw/FaceTable.antt).
pub mod Transport
use ndn_share.Base.{ℕ, Bool, true, false, ◌==◌}

pub data Scope : Type 0 where
  local non_local : Scope

pub data LinkType : Type 0 where
  point_to_point multi_access : LinkType

pub record Face : Type 0 where
  pub address : ℕ
  pub scope : Scope
  pub link_type : LinkType

-- &a == &b
abbrev pub same_face : Face → Face → Bool
same_face a b = a.address == b.address

abbrev pub is_local : Scope → Bool
is_local local = true
is_local non_local = false

abbrev pub is_multi_access : LinkType → Bool
is_multi_access point_to_point = false
is_multi_access multi_access = true

-- face/face.hpp: reserved FaceIds
abbrev pub invalid_face_id : ℕ
invalid_face_id = 0

abbrev pub face_id_content_store : ℕ
face_id_content_store = 254

abbrev pub face_id_reserved_max : ℕ
face_id_reserved_max = 255
