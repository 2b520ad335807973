-- ===== src/Pit.antt =====
-- table/pit-entry.cpp and the records of an entry: pit-face-record.cpp, pit-in-record.cpp and
-- pit-out-record.cpp. The clock is an argument of what reads it; a timer is what it will do and
-- when.
pub mod Records
pub mod Algorithm
use ndn_share.Base.{
  ℕ, ◌+◌, Bool, true, false, Option, none, some, List, [], ◌∷◌, ◌==◌, if◌then◌else◌, find_if,
  erase_first, update_first, ℤ,
}
use ndn_share.Face.{Face, same_face}
use ndn_share.Packet.{Interest, nanoseconds, lifetime_or}

pub record FaceRecord : Type 0 where
  pub face : Face
  pub last_nonce : ℕ
  pub last_renewed : ℕ
  pub expiry : ℕ

pub record InRecord (Name : Type 0) : Type 0 where
  pub base : FaceRecord
  pub open base use *
  pub interest : Interest Name

-- The Nack that came back is its reason.
pub record OutRecord : Type 0 where
  pub base : FaceRecord
  pub open base use *
  pub incoming_nack : Option ℕ

-- FaceRecord::update on the record of a face: every field but the face is written.
abbrev pub update_face_record :
    {Name : Type 0} → (default_lifetime now : ℕ) → Face → Interest Name → FaceRecord
update_face_record default_lifetime now face interest = record {
  face = face;
  last_nonce = interest.nonce;
  last_renewed = now;
  expiry = now + nanoseconds (lifetime_or default_lifetime interest.lifetime);
}

-- What a straggler timer passes to onInterestFinalize.
pub record Straggler : Type 0 where
  pub due : ℕ
  pub is_satisfied : Bool
  pub freshness_period : ℤ

-- `id` is the identity of the entry. `suppression_interval` is the strategy information of
-- RetxSuppressionExponential, in nanoseconds.
pub record Entry (Name : Type 0) : Type 0 where
  pub id : ℕ
  pub interest : Interest Name
  pub in_records : List (InRecord Name)
  pub out_records : List OutRecord
  pub unsatisfy_timer : Option ℕ
  pub straggler_timer : Option Straggler
  pub suppression_interval : Option ℕ

abbrev pub out_record_of : Face → OutRecord → Bool
out_record_of face r = same_face r.face face

-- OutRecord::setIncomingNack on the out-record of a face.
abbrev pub set_incoming_nack : (nonce reason : ℕ) → OutRecord → OutRecord × Bool
set_incoming_nack nonce reason r =
    if nonce == r.last_nonce then (record r { incoming_nack = some reason }, true) else (r, false)

module _ {Name : Type 0} where
  abbrev pub in_record_of : Face → InRecord Name → Bool
  in_record_of face r = same_face r.face face

  -- Entry(interest)
  abbrev pub new_entry : ℕ → Interest Name → Entry Name
  new_entry id interest = record {
    id = id;
    interest = interest;
    in_records = [];
    out_records = [];
    unsatisfy_timer = none;
    straggler_timer = none;
    suppression_interval = none;
  }

  unfoldable pub has_in_records : Entry Name → Bool
  has_in_records e = elim e.in_records [ [] ↦ false | r ∷ rs ↦ true ]

  unfoldable pub get_in_record : Entry Name → Face → Option (InRecord Name)
  get_in_record e face = find_if (in_record_of face) e.in_records

  -- InRecord::update
  abbrev pub update_in_record : (default_lifetime now : ℕ) → Face → Interest Name → InRecord Name
  update_in_record default_lifetime now face interest = record {
    base = update_face_record default_lifetime now face interest;
    interest = interest;
  }

  -- The record found by std::find_if is updated in place; a new one goes to the front.
  unfoldable pub insert_or_update_in_record :
      (default_lifetime now : ℕ) → Entry Name → Face → Interest Name → Entry Name
  insert_or_update_in_record default_lifetime now e face interest =
      elim (update_first (in_record_of face)
        (λ r. update_in_record default_lifetime now r.face interest) e.in_records) [
          | none ↦ record e {
            in_records = update_in_record default_lifetime now face interest ∷ e.in_records;
          }
          | some rs ↦ record e { in_records = rs }
        ]

  unfoldable pub delete_in_record : Entry Name → Face → Entry Name
  delete_in_record e face = record e { in_records = erase_first (in_record_of face) e.in_records }

  unfoldable pub clear_in_records : Entry Name → Entry Name
  clear_in_records e = record e { in_records = [] }

  unfoldable pub get_out_record : Entry Name → Face → Option OutRecord
  get_out_record e face = find_if (out_record_of face) e.out_records

  -- FaceRecord::update on an out-record: the Nack that it holds stays.
  abbrev pub update_out_record : (default_lifetime now : ℕ) → Interest Name → OutRecord → OutRecord
  update_out_record default_lifetime now interest r = record r {
    base = update_face_record default_lifetime now r.face interest;
  }

  abbrev pub new_out_record : (default_lifetime now : ℕ) → Face → Interest Name → OutRecord
  new_out_record default_lifetime now face interest = record {
    base = update_face_record default_lifetime now face interest;
    incoming_nack = none;
  }

  unfoldable pub insert_or_update_out_record :
      (default_lifetime now : ℕ) → Entry Name → Face → Interest Name → Entry Name
  insert_or_update_out_record default_lifetime now e face interest =
      elim (update_first (out_record_of face) (update_out_record default_lifetime now interest)
        e.out_records) [
          | none ↦ record e {
            out_records = new_out_record default_lifetime now face interest ∷ e.out_records;
          }
          | some rs ↦ record e { out_records = rs }
        ]

  unfoldable pub delete_out_record : Entry Name → Face → Entry Name
  delete_out_record e face = record e {
    out_records = erase_first (out_record_of face) e.out_records;
  }

  -- Pit::deleteInOutRecords
  unfoldable pub delete_in_out_records : Entry Name → Face → Entry Name
  unfolding delete_in_record delete_out_record
  delete_in_out_records e face = delete_out_record (delete_in_record e face) face
