-- ===== src/Fw/FaceTable/Ids.antt =====
-- FaceIds: each face in the table is found under its own FaceId, and FaceIds are not used again.
use ndn_share.Base.{
  ℕ, ◌+◌, ◌≤◌, ◌<◌, ◌≡◌, refl, ◌≢◌, inl, inr, Option-cases, none, some, ite, arith, ℕ_discrete,
}
use ndn_share.Base.Assoc.{
  lookup, lookup-insert, lookup-insert_self, lookup-remove, lookup-remove_self,
}
use ndn_share.Face.{Face, invalid_face_id, face_id_reserved_max}
use ndn_share.Fw.FaceTable.{FaceTable, init, id_of, get, add_impl, add, add_reserved, remove_face}

-- A face in the table knows its FaceId, and all FaceIds in use are at most the last one given.
pub record IsValid (t : FaceTable) : Type 0 where
  pub own : (id : ℕ) (face : Face) → get t id ≡ some face → id_of t face ≡ id
  pub bounded : (id : ℕ) (face : Face) → get t id ≡ some face → (0 < id) × (id ≤ t.last_face_id)
  pub reserved : face_id_reserved_max ≤ t.last_face_id

pub init-IsValid : IsValid init
unfolding init get lookup
init-IsValid = record {
  own = λ id face e. absurd (cc);
  bounded = λ id face e. absurd (cc);
  reserved = omega arith;
}

get-add_impl :
    (t : FaceTable) (face : Face) (id j : ℕ)
    → get (add_impl t face id) j ≡ ite (ℕ_discrete id j) (some face) (get t j)
unfolding get add_impl
get-add_impl t face id j = lookup-insert ℕ_discrete id j face t.faces

id_of-add_impl :
    (t : FaceTable) (face other : Face) (id : ℕ)
    → id_of (add_impl t face id) other
      ≡ ite (ℕ_discrete face.address other.address) id (id_of t other)
unfolding id_of add_impl
id_of-add_impl t face other id =
    ground (arith, lookup-insert ℕ_discrete face.address other.address id t.ids)

abbrev counted : FaceTable → FaceTable
counted t = record t { last_face_id = t.last_face_id + 1 }

get-counted : (t : FaceTable) (id : ℕ) → get (counted t) id ≡ get t id
unfolding get
get-counted t id = refl

id_of-counted : (t : FaceTable) (face : Face) → id_of (counted t) face ≡ id_of t face
unfolding id_of
id_of-counted t face = refl

add_new :
    (t : FaceTable) (face : Face)
    → get t (id_of t face) ≡ none
    → add t face ≡ add_impl (counted t) face (t.last_face_id + 1)
unfolding add
add_new t face new = ground (arith, new)

add_present :
    (t : FaceTable) (face : Face)
    → (face' : Face) → IsValid t
    → get t (id_of t face) ≡ some face'
    → add t face ≡ t
unfolding add
add_present t face face' v old = ground (arith, old, v.bounded (id_of t face) face' old)

next_id_unused : (t : FaceTable) → IsValid t → get t (t.last_face_id + 1) ≡ none
next_id_unused t v = elim (Option-cases (get t (t.last_face_id + 1))) [
  | inl e ↦ e
  | inr (face, e) ↦ absurd (omega (arith, v.bounded (t.last_face_id + 1) face e))
]

-- In a valid table a face whose FaceId is not in use gets one that no face has, and is found under
-- it; every other FaceId leads where it did.
pub add-get :
    (t : FaceTable) (face : Face)
    → IsValid t
    → get t (id_of t face) ≡ none
    → (get t (t.last_face_id + 1) ≡ none)
      × (get (add t face) (t.last_face_id + 1) ≡ some face)
      × (id_of (add t face) face ≡ t.last_face_id + 1)
      × ((id : ℕ) → id ≢ t.last_face_id + 1 → get (add t face) id ≡ get t id)
add-get t face v new =
    let n = t.last_face_id + 1 in
    rw (add_new t face new) (
      next_id_unused t v,
      ground (arith, get-add_impl (counted t) face n n),
      ground (arith, id_of-add_impl (counted t) face face n),
      (λ id ne. ground (arith, get-add_impl (counted t) face n id, get-counted t id)),
    )

-- After `remove` of a FaceId that is in use it leads nowhere and the face has the invalid one; every other FaceId leads
-- where it did.
pub remove_face-get :
    (t : FaceTable) (id : ℕ) (face : Face)
    → get t id ≡ some face
    → let (t', removed) = remove_face t id in
      (removed ≡ some face)
      × (get t' id ≡ none)
      × (id_of t' face ≡ invalid_face_id)
      × ((j : ℕ) → j ≢ id → get t' j ≡ get t j)
unfolding remove_face id_of
remove_face-get t id face e =
    rw (e, remove_face)
      (
        refl,
        lookup-remove_self ℕ_discrete id t.faces,
        ground (arith, lookup-insert_self ℕ_discrete face.address invalid_face_id t.ids),
        (λ j ne. ground (arith, lookup-remove ℕ_discrete id j t.faces)),
      )

id_of-address :
    (t : FaceTable) (face other : Face)
    → face.address ≡ other.address
    → id_of t face ≡ id_of t other
unfolding id_of
id_of-address t face other e = rw e refl

add_impl-last_face_id :
    (t : FaceTable) (face : Face) (id : ℕ) → (add_impl t face id).last_face_id ≡ t.last_face_id
unfolding add_impl
add_impl-last_face_id t face id = refl

-- A face that is not in the table may get any FaceId up to the last one that was given.
add_impl-IsValid :
    (t : FaceTable) (face : Face) (n : ℕ)
    → IsValid t
    → get t (id_of t face) ≡ none
    → 0 < n
    → n ≤ t.last_face_id
    → IsValid (add_impl t face n)
add_impl-IsValid t face n v new above below = record {
  own = λ id other e. elim (ℕ_discrete n id) [
    | yes same ↦ ground (arith, e, same, get-add_impl t face n id, id_of-add_impl t face other n)
    | no differs ↦
        let old : get t id ≡ some other = ground (arith, e, differs, get-add_impl t face n id) in
        elim (ℕ_discrete face.address other.address) [
          | yes same ↦
              absurd (ground (arith, old, new, id_of-address t face other same, v.own id other old))
          | no apart ↦ ground (arith, apart, old, v.own id other old, id_of-add_impl t face other n)
        ]
  ];
  bounded = λ id other e. elim (ℕ_discrete n id) [
    | yes same ↦ ground (arith, same, above, below, add_impl-last_face_id t face n)
    | no differs ↦
        let old : get t id ≡ some other = ground (arith, e, differs, get-add_impl t face n id) in
        ground (arith, v.bounded id other old, add_impl-last_face_id t face n)
  ];
  reserved = ground (arith, v.reserved, add_impl-last_face_id t face n);
}

counted-IsValid : (t : FaceTable) → IsValid t → IsValid (counted t)
unfolding get id_of
counted-IsValid t v = record {
  own = v.own;
  bounded = λ id face e. let (above, below) = v.bounded id face e in (above, omega (arith, below));
  reserved = omega (arith, v.reserved);
}

-- Adding a face leaves the table valid.
add-IsValid :
    (t : FaceTable) (face : Face) → IsValid t → get t (id_of t face) ≡ none → IsValid (add t face)
add-IsValid t face v new = rw (add_new t face new) (
    add_impl-IsValid (counted t) face (t.last_face_id + 1) (counted-IsValid t v)
      (ground (arith, new, id_of-counted t face, get-counted t (id_of t face))) (omega arith)
      (omega arith))

-- Removing a face leaves the table valid.
remove_face-IsValid :
    (t : FaceTable) (id : ℕ) (face : Face)
    → IsValid t
    → get t id ≡ some face
    → IsValid (remove_face t id).0
unfolding remove_face get id_of
remove_face-IsValid t id face v e =
    rw (e, remove_face)
      (record {
        own = λ j other stays.
            let differs : j ≢ id =
              λ same. absurd (ground (arith, stays, same, lookup-remove ℕ_discrete id j t.faces)) in
            let old : get t j ≡ some other =
              ground (arith, stays, differs, lookup-remove ℕ_discrete id j t.faces) in
            elim (ℕ_discrete face.address other.address) [
              | yes same ↦ absurd (
                  ground (
                    arith,
                    differs,
                    id_of-address t face other same,
                    v.own id face e,
                    v.own j other old,
                  ))
              | no apart ↦ ground (
                arith,
                apart,
                v.own j other old,
                lookup-insert ℕ_discrete face.address other.address invalid_face_id t.ids,
              )
            ];
        bounded = λ j other stays.
            let differs : j ≢ id =
              λ same. absurd (ground (arith, stays, same, lookup-remove ℕ_discrete id j t.faces)) in
            v.bounded j other
              (ground (arith, stays, differs, lookup-remove ℕ_discrete id j t.faces));
        reserved = v.reserved;
      })

-- What happens to a face table: a face that is not in it is added, under the next FaceId or under a
-- reserved one that is not in use, or one that is in it removed. The source asserts that a reserved
-- FaceId is in its range and the face not in the table.
pub data IsReachable : FaceTable → Type 0 where
  at_start : IsReachable init
  after_add :
      {t : FaceTable} (face : Face)
      → get t (id_of t face) ≡ none
      → IsReachable t
      → IsReachable (add t face)
  after_add_reserved :
      {t : FaceTable} (face : Face) (id : ℕ)
      → 0 < id
      → id ≤ face_id_reserved_max
      → get t (id_of t face) ≡ none
      → get t id ≡ none
      → IsReachable t
      → IsReachable (add_reserved t face id)
  after_remove :
      {t : FaceTable} (id : ℕ) (face : Face)
      → get t id ≡ some face
      → IsReachable t
      → IsReachable (remove_face t id).0

-- In every table that additions, also under reserved FaceIds, and removals lead to from the start, a
-- face that a FaceId leads to has that FaceId, which is not the invalid one and not above the last
-- that was given.
pub IsReachable-IsValid : (t : FaceTable) → IsReachable t → IsValid t
unfolding add_reserved
IsReachable-IsValid _ at_start = init-IsValid
IsReachable-IsValid _ (after_add {t} face new r) = add-IsValid t face (IsReachable-IsValid t r) new
IsReachable-IsValid _ (after_add_reserved {t} face id above below new free r) =
    let v = IsReachable-IsValid t r in
    add_impl-IsValid t face id v new above (omega (arith, below, v.reserved))
IsReachable-IsValid _ (after_remove {t} id face e r) =
    remove_face-IsValid t id face (IsReachable-IsValid t r) e
