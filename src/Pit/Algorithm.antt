-- ===== src/Pit/Algorithm.antt =====
-- fw/pit-algorithm.cpp.
pub mod Duplicates
pub mod Forwarding
use Prim.Native.Nat.{bit_or}
use ndn_share.Base.{
  ℕ, Bool, true, false, ◌&&◌, not, Option, none, some, List, [], ◌∷◌, ◌==◌, leb, if◌then◌else◌,
  any_of, none_of,
}
use ndn_share.Face.{Face, local, non_local, is_local, same_face}
use ndn_share.Packet.{NameOps}
use ndn_share.Pit.{InRecord, OutRecord, Entry}

module _ {Name : Type 0} (names : NameOps Name) where
  unfoldable pub violates_scope : Entry Name → Face → Bool
  violates_scope e out_face =
      if is_local out_face.scope
      then false
      else if names.is_prefix_of names.localhost e.interest.name
      then true
      else if names.is_prefix_of names.localhop e.interest.name
      then none_of (λ (r : InRecord Name). is_local r.face.scope) e.in_records
      else false

  unfoldable pub can_forward_to_legacy : (now : ℕ) → Entry Name → Face → Bool
  can_forward_to_legacy now e face =
      if any_of (λ (r : OutRecord). same_face r.face face && leb now r.expiry) e.out_records
      then false
      else if not (
          any_of (λ (r : InRecord Name). not (same_face r.face face) && leb now r.expiry)
            e.in_records)
      then false
      else not (violates_scope e face)

-- DuplicateNonceWhere
abbrev pub duplicate_nonce_none : ℕ
duplicate_nonce_none = 0

abbrev pub duplicate_nonce_in_same : ℕ
duplicate_nonce_in_same = 1

abbrev pub duplicate_nonce_in_other : ℕ
duplicate_nonce_in_other = 2

abbrev pub duplicate_nonce_out_same : ℕ
duplicate_nonce_out_same = 4

abbrev pub duplicate_nonce_out_other : ℕ
duplicate_nonce_out_other = 8

module _ {Name : Type 0} (nonce : ℕ) (face : Face) where
  unfoldable pub scan_in_records : (dnw : ℕ) → List (InRecord Name) → ℕ
  scan_in_records dnw [] = dnw
  scan_in_records dnw (r ∷ rs) =
      scan_in_records
        (if r.last_nonce == nonce
          then (if same_face r.face face
              then bit_or dnw duplicate_nonce_in_same
              else bit_or dnw duplicate_nonce_in_other)
          else dnw)
        rs

unfoldable pub scan_out_records : (nonce : ℕ) → Face → (dnw : ℕ) → List OutRecord → ℕ
scan_out_records nonce face dnw [] = dnw
scan_out_records nonce face dnw (r ∷ rs) =
    scan_out_records nonce face
      (if r.last_nonce == nonce
        then (if same_face r.face face
            then bit_or dnw duplicate_nonce_out_same
            else bit_or dnw duplicate_nonce_out_other)
        else dnw)
      rs

-- Unexpired, and not Nacked.
abbrev pub is_pending : (now : ℕ) → OutRecord → Bool
is_pending now r = leb now r.expiry && elim r.incoming_nack [ none ↦ true | some _ ↦ false ]

module _ {Name : Type 0} where
  unfoldable pub find_duplicate_nonce : Entry Name → (nonce : ℕ) → Face → ℕ
  unfolding scan_in_records scan_out_records
  find_duplicate_nonce e nonce face =
      scan_out_records nonce face (scan_in_records nonce face duplicate_nonce_none e.in_records)
        e.out_records

  unfoldable pub has_pending_out_records : (now : ℕ) → Entry Name → Bool
  has_pending_out_records now e = any_of (is_pending now) e.out_records
