-- ===== src/Tests/Pit.antt =====
-- PIT entries at a concrete entry: one in-record from face 1 and one out-record to face 2.
use ndn_share.Base.{
  ℕ, ◌≡◌, ◌≢◌, refl, false, none, some, [], ◌∷◌, any_of, update_first, ◌==◌, pos, ℕ_discrete,
}
use ndn_share.Face.{Face, non_local, point_to_point}
use ndn_share.Packet.{Interest, NameOps}
use ndn_share.Pit.{
  Entry, InRecord, OutRecord, new_entry, get_in_record, get_out_record, insert_or_update_in_record,
  insert_or_update_out_record,
}
use ndn_share.Pit.Records.{IsEntry, get_in_record-insert, get_out_record-insert}
use ndn_share.Pit.Algorithm.{
  find_duplicate_nonce, has_pending_out_records, scan_in_records, scan_out_records,
}
use ndn_share.Pit.Algorithm.Duplicates.{
  flags, in_same, in_other, out_same, out_other, find_duplicate_nonce-eq-flags,
}
use ndn_share.Pit.Algorithm.Forwarding.{has_pending_out_records_stale_nack}

abbrev pub face : ℕ → Face
face n = record { address = n; scope = non_local; link_type = point_to_point }

-- A name has one component, a number; 0 is /localhost.
abbrev pub names : NameOps ℕ
names = record {
  discrete = ℕ_discrete;
  is_prefix_of = λ p n. p == n;
  localhost = 0;
  localhop = 1;
  to_uri = λ n. n ∷ [];
  of_uri = λ bytes. 0;
}

abbrev pub interest : ℕ → Interest ℕ
interest nonce = record {
  name = 8;
  selectors = 0;
  nonce = nonce;
  lifetime = pos 4_000;
  must_be_fresh = false;
  queried_name = none;
  next_hop_face_id = none;
}

-- Received from face 1 at 10, and sent to face 2 at 20, with nonce 77.
abbrev pub in_recorded : Entry ℕ
in_recorded = insert_or_update_in_record 4_000 10 (new_entry 1 (interest 77)) (face 1) (interest 77)

abbrev pub entry : Entry ℕ
entry = insert_or_update_out_record 4_000 20 in_recorded (face 2) (interest 77)

-- The same, with a Nack that came back with reason 50.
abbrev nacked_record : OutRecord
nacked_record = record {
  base = record { face = face 2; last_nonce = 77; last_renewed = 20; expiry = 4_000_000_020 };
  incoming_nack = some 50;
}

abbrev nacked : Entry ℕ
nacked = record entry { out_records = nacked_record ∷ [] }

same_upstream : find_duplicate_nonce entry 77 (face 2) ≡ 6
unfolding find_duplicate_nonce scan_in_records scan_out_records insert_or_update_in_record
    insert_or_update_out_record update_first
same_upstream = refl

get_in_record-insert_example :
    let e' = insert_or_update_in_record 4_000 30 entry (face 3) (interest 78) in
    ((r : InRecord ℕ) × (get_in_record e' (face 3) ≡ some r)
      × (r.interest ≡ interest 78)
      × (r.last_nonce ≡ 78)
      × (r.last_renewed ≡ 30)
      × (r.expiry ≡ 4_000_000_030))
    × ((other : Face) → 3 ≢ other.address → get_in_record e' other ≡ get_in_record entry other)
    × (e'.out_records ≡ entry.out_records)
get_in_record-insert_example = get_in_record-insert 4_000 30 entry (face 3) (interest 78)

get_out_record-insert_example :
    let e' = insert_or_update_out_record 4_000 30 nacked (face 2) (interest 78) in
    ((r : OutRecord) × (get_out_record e' (face 2) ≡ some r)
      × (r.last_nonce ≡ 78)
      × (r.last_renewed ≡ 30)
      × (r.expiry ≡ 4_000_000_030)
      × (r.incoming_nack ≡ some 50))
    × ((other : Face) → 2 ≢ other.address → get_out_record e' other ≡ get_out_record nacked other)
    × (e'.in_records ≡ nacked.in_records)
unfolding get_out_record
get_out_record-insert_example = get_out_record-insert 4_000 30 nacked (face 2) (interest 78)

entry-IsEntry : IsEntry entry
unfolding insert_or_update_in_record insert_or_update_out_record update_first
entry-IsEntry = record { ins = (refl, tt); outs = (refl, tt) }

find_duplicate_nonce-eq-flags_example :
    find_duplicate_nonce entry 77 (face 1)
    ≡ flags
        (any_of (in_same 77 (face 1)) entry.in_records)
        (any_of (in_other 77 (face 1)) entry.in_records)
        (any_of (out_same 77 (face 1)) entry.out_records)
        (any_of (out_other 77 (face 1)) entry.out_records)
find_duplicate_nonce-eq-flags_example = find_duplicate_nonce-eq-flags entry 77 (face 1)

has_pending_out_records_stale_nack_example :
    has_pending_out_records 40 (insert_or_update_out_record 4_000 30 nacked (face 2) (interest 78))
    ≡ false
has_pending_out_records_stale_nack_example =
    has_pending_out_records_stale_nack names 4_000 30 40 nacked (face 2) (interest 78) nacked_record
      50 refl refl refl
