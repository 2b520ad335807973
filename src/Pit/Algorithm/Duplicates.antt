-- ===== src/Pit/Algorithm/Duplicates.antt =====
-- findDuplicateNonce: its bits tell in which records the nonce stands.
use ndn_share.Base.{
  ℕ, ◌+◌, ◌*◌, ◌≡◌, refl, Bool, true, false, ◌&&◌, ◌||◌, not, List, [], ◌∷◌, ◌==◌, any_of,
  Bool-cases, inl, inr, arith,
}
use ndn_share.Face.{Face, same_face}
use ndn_share.Pit.{InRecord, OutRecord, Entry}
use ndn_share.Pit.Algorithm.{scan_in_records, scan_out_records, find_duplicate_nonce}
use Prim.Native.Nat.{bit_or}

abbrev bit : Bool → ℕ
bit true = 1
bit false = 0

-- The word with these bits.
abbrev pub flags : Bool → Bool → Bool → Bool → ℕ
flags in_same in_other out_same out_other =
    bit in_same + 2 * bit in_other + 4 * bit out_same + 8 * bit out_other

or_in_same : (a b c d : Bool) → bit_or (flags a b c d) 1 ≡ flags true b c d
or_in_same true true true true = refl
or_in_same true true true false = refl
or_in_same true true false true = refl
or_in_same true true false false = refl
or_in_same a b c d = ground arith

or_in_other : (a b c d : Bool) → bit_or (flags a b c d) 2 ≡ flags a true c d
or_in_other true true true true = refl
or_in_other a b c d = ground arith

or_out_same : (a b c d : Bool) → bit_or (flags a b c d) 4 ≡ flags a b true d
or_out_same true true true true = refl
or_out_same a b c d = ground arith

or_out_other : (a b c d : Bool) → bit_or (flags a b c d) 8 ≡ flags a b c true
or_out_other true true true true = refl
or_out_other a b c d = ground arith

or_true : (a : Bool) → (a || true) ≡ true
or_true true = refl
or_true false = refl

module _ {Name : Type 0} (nonce : ℕ) (face : Face) where
  -- A record of the face, or of another face, that has the nonce.
  abbrev pub in_same : InRecord Name → Bool
  in_same r = r.last_nonce == nonce && same_face r.face face

  abbrev pub in_other : InRecord Name → Bool
  in_other r = r.last_nonce == nonce && not (same_face r.face face)

  scan_in_records-eq :
      (a b c d : Bool) (rs : List (InRecord Name))
      → scan_in_records nonce face (flags a b c d) rs
        ≡ flags (a || any_of in_same rs) (b || any_of in_other rs) c d
  unfolding scan_in_records
  scan_in_records-eq a b c d [] = ground arith
  scan_in_records-eq a b c d (r ∷ rs) = elim (Bool-cases (r.last_nonce == nonce)) [
    | inr e ↦ rw e (scan_in_records-eq a b c d rs)
    | inl e ↦ elim (Bool-cases (same_face r.face face)) [
      | inl f ↦ rw (e, f, or_in_same a b c d, or_true a) (scan_in_records-eq true b c d rs)
      | inr f ↦ rw (e, f, or_in_other a b c d, or_true b) (scan_in_records-eq a true c d rs)
    ]
  ]

module _ (nonce : ℕ) (face : Face) where
  abbrev pub out_same : OutRecord → Bool
  out_same r = r.last_nonce == nonce && same_face r.face face

  abbrev pub out_other : OutRecord → Bool
  out_other r = r.last_nonce == nonce && not (same_face r.face face)

  scan_out_records-eq :
      (a b c d : Bool) (rs : List OutRecord)
      → scan_out_records nonce face (flags a b c d) rs
        ≡ flags a b (c || any_of out_same rs) (d || any_of out_other rs)
  unfolding scan_out_records
  scan_out_records-eq a b c d [] = ground arith
  scan_out_records-eq a b c d (r ∷ rs) = elim (Bool-cases (r.last_nonce == nonce)) [
    | inr e ↦ rw e (scan_out_records-eq a b c d rs)
    | inl e ↦ elim (Bool-cases (same_face r.face face)) [
      | inl f ↦ rw (e, f, or_out_same a b c d, or_true c) (scan_out_records-eq a b true d rs)
      | inr f ↦ rw (e, f, or_out_other a b c d, or_true d) (scan_out_records-eq a b c true rs)
    ]
  ]

-- The word that findDuplicateNonce returns has exactly the bits of the kinds of record, in-record
-- or out-record, of the same or of another face, in which the nonce stands.
pub find_duplicate_nonce-eq-flags :
    {Name : Type 0} (e : Entry Name) (nonce : ℕ) (face : Face)
    → find_duplicate_nonce e nonce face
      ≡ flags
          (any_of (in_same nonce face) e.in_records)
          (any_of (in_other nonce face) e.in_records)
          (any_of (out_same nonce face) e.out_records)
          (any_of (out_other nonce face) e.out_records)
unfolding find_duplicate_nonce
find_duplicate_nonce-eq-flags e nonce face =
    rw (scan_in_records-eq nonce face false false false false e.in_records) (
      scan_out_records-eq nonce face (any_of (in_same nonce face) e.in_records)
        (any_of (in_other nonce face) e.in_records) false false e.out_records)
