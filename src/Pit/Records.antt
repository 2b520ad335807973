-- ===== src/Pit/Records.antt =====
-- In-records and out-records of a PIT entry: at most one for a face, whatever is inserted and
-- deleted, and what each operation does to the record of each face.
use ndn_share.Base.{ℕ, ◌+◌, ◌≡◌, refl, ◌≢◌, inl, inr, Option, none, some, arith}
use ndn_share.Base.Keyed.{
  OnePerKey, find_if-update_first, update_first-OnePerKey, erase_first-OnePerKey,
  find_if-erase_first_self, find_if-erase_first_ne,
}
use ndn_share.Face.{Face}
use ndn_share.Packet.{Interest, nanoseconds, lifetime_or}
use ndn_share.Pit.{
  InRecord, OutRecord, Entry, get_in_record, insert_or_update_in_record, get_out_record,
  delete_in_out_records, insert_or_update_out_record, update_in_record, update_out_record,
  new_out_record,
}

abbrev pub in_key : {Name : Type 0} → InRecord Name → ℕ
in_key r = r.face.address

abbrev pub out_key : OutRecord → ℕ
out_key r = r.face.address

-- The Nack on a face's out-record, where it has one.
abbrev pub nack_of : Option OutRecord → Option ℕ
nack_of none = none
nack_of (some r) = r.incoming_nack

pub record IsEntry {Name : Type 0} (e : Entry Name) : Type 0 where
  pub ins : OnePerKey in_key e.in_records
  pub outs : OnePerKey out_key e.out_records

module _ {Name : Type 0} (default_lifetime now : ℕ) (e : Entry Name) (face : Face)
    (interest : Interest Name) where
  abbrev in_updated : InRecord Name → InRecord Name
  in_updated r = update_in_record default_lifetime now r.face interest

  abbrev out_updated : OutRecord → OutRecord
  out_updated = update_out_record default_lifetime now interest

  -- After insertOrUpdateInRecord the face has an in-record with the Interest, its nonce, and an
  -- expiry that the lifetime sets; the in-records of other faces, and the out-records, are as before.
  pub get_in_record-insert :
      let e' = insert_or_update_in_record default_lifetime now e face interest in
      ((r : InRecord Name) × (get_in_record e' face ≡ some r)
        × (r.interest ≡ interest)
        × (r.last_nonce ≡ interest.nonce)
        × (r.last_renewed ≡ now)
        × (r.expiry ≡ now + nanoseconds (lifetime_or default_lifetime interest.lifetime)))
      × ((other : Face)
          → face.address ≢ other.address
          → get_in_record e' other ≡ get_in_record e other)
      × (e'.out_records ≡ e.out_records)
  unfolding insert_or_update_in_record get_in_record
  get_in_record-insert =
      elim (find_if-update_first in_key in_updated (λ r. refl) face.address e.in_records) [
        | inl (_, absent) ↦
            rw (absent, insert_or_update_in_record)
              (
                (
                  update_in_record default_lifetime now face interest,
                  ground arith,
                  refl,
                  refl,
                  refl,
                  refl,
                ),
                (λ other ne. ground arith),
                refl,
              )
        | inr (old, rs, _, stored, found, others) ↦
            rw (stored, insert_or_update_in_record)
              ((_, found, refl, refl, refl, refl), (λ other ne. others other.address ne), refl)
      ]

  insert_or_update_in_record-IsEntry :
      IsEntry e → IsEntry (insert_or_update_in_record default_lifetime now e face interest)
  unfolding insert_or_update_in_record
  insert_or_update_in_record-IsEntry v =
      elim (find_if-update_first in_key in_updated (λ r. refl) face.address e.in_records) [
        | inl (missing, absent) ↦
            rw (absent, insert_or_update_in_record)
              (record { ins = (missing, v.ins); outs = v.outs })
        | inr (old, rs, _, stored, found, others) ↦
            rw (stored, insert_or_update_in_record)
              (record {
                ins =
                    update_first-OnePerKey in_key in_updated (λ r. refl) face.address e.in_records
                      rs v.ins stored;
                outs = v.outs;
              })
      ]

  -- The same of insertOrUpdateOutRecord; an out-record that was there keeps the Nack that it holds,
  -- and a new one holds none.
  pub get_out_record-insert :
      let e' = insert_or_update_out_record default_lifetime now e face interest in
      ((r : OutRecord) × (get_out_record e' face ≡ some r)
        × (r.last_nonce ≡ interest.nonce)
        × (r.last_renewed ≡ now)
        × (r.expiry ≡ now + nanoseconds (lifetime_or default_lifetime interest.lifetime))
        × (r.incoming_nack ≡ nack_of (get_out_record e face)))
      × ((other : Face)
          → face.address ≢ other.address
          → get_out_record e' other ≡ get_out_record e other)
      × (e'.in_records ≡ e.in_records)
  unfolding insert_or_update_out_record get_out_record
  get_out_record-insert =
      elim (find_if-update_first out_key out_updated (λ r. refl) face.address e.out_records) [
        | inl (missing, absent) ↦
            rw (absent, insert_or_update_out_record)
              (
                (
                  new_out_record default_lifetime now face interest,
                  ground arith,
                  refl,
                  refl,
                  refl,
                  rw (missing, nack_of),
                ),
                (λ other ne. ground arith),
                refl,
              )
        | inr (old, rs, was, stored, found, others) ↦
            rw (stored, insert_or_update_out_record)
              (
                (_, found, refl, refl, refl, rw (was, nack_of)),
                (λ other ne. others other.address ne),
                refl,
              )
      ]

  insert_or_update_out_record-IsEntry :
      IsEntry e → IsEntry (insert_or_update_out_record default_lifetime now e face interest)
  unfolding insert_or_update_out_record
  insert_or_update_out_record-IsEntry v =
      elim (find_if-update_first out_key out_updated (λ r. refl) face.address e.out_records) [
        | inl (missing, absent) ↦
            rw (absent, insert_or_update_out_record)
              (record { ins = v.ins; outs = (missing, v.outs) })
        | inr (old, rs, _, stored, found, others) ↦
            rw (stored, insert_or_update_out_record)
              (record {
                ins = v.ins;
                outs =
                    update_first-OnePerKey out_key out_updated (λ r. refl) face.address
                      e.out_records rs v.outs stored;
              })
      ]

module _ {Name : Type 0} (e : Entry Name) (face : Face) (v : IsEntry e) where
  -- After Pit::deleteInOutRecords on an entry with at most one record for a face, the face has no
  -- record, the records of other faces are as before, and there still is at most one for a face.
  pub delete_in_out_records_lem :
      let e' = delete_in_out_records e face in
      (get_in_record e' face ≡ none)
      × (get_out_record e' face ≡ none)
      × ((other : Face)
          → face.address ≢ other.address
          → (get_in_record e' other ≡ get_in_record e other)
            × (get_out_record e' other ≡ get_out_record e other))
      × IsEntry e'
  unfolding delete_in_out_records get_in_record get_out_record
  delete_in_out_records_lem = (
    find_if-erase_first_self in_key face.address e.in_records v.ins,
    find_if-erase_first_self out_key face.address e.out_records v.outs,
    (λ other ne. (
      find_if-erase_first_ne in_key face.address other.address e.in_records ne,
      find_if-erase_first_ne out_key face.address other.address e.out_records ne,
    )),
    record {
      ins = erase_first-OnePerKey in_key face.address e.in_records v.ins;
      outs = erase_first-OnePerKey out_key face.address e.out_records v.outs;
    },
  )
