-- ===== src/Pit/Algorithm/Forwarding.antt =====
-- canForwardToLegacy and hasPendingOutRecords, against the records of the faces.
use ndn_share.Base.{
  ℕ, ◌+◌, ◌≤◌, ◌≡◌, refl, Bool, true, false, ◌&&◌, List, [], ◌∷◌, any_of, find_if, update_first,
  Bool-cases, inl, inr, arith, none, some, leb, ap, ◌∙◌,
}
use ndn_share.Face.{Face, same_face}
use ndn_share.Packet.{Interest, NameOps, nanoseconds, lifetime_or}
use ndn_share.Pit.{
  OutRecord, Entry, out_record_of, get_out_record, insert_or_update_out_record, update_out_record,
}
use ndn_share.Pit.Algorithm.{can_forward_to_legacy, has_pending_out_records, is_pending}
use ndn_share.Pit.Records.{get_out_record-insert, nack_of}

any_of-find_if {ℓ} :
    {A : Type ℓ} (p q : A → Bool) (xs : List A) (x : A)
    → find_if p xs ≡ some x
    → q x ≡ true
    → any_of q xs ≡ true
any_of-find_if p q [] x e h = cc
any_of-find_if p q (y ∷ ys) x e h = elim (Bool-cases (p y)) [
  | inl hit ↦ ground (arith, e, hit)
  | inr miss ↦ ground (arith, any_of-find_if p q ys x (ground (arith, e, miss)) h)
]

find_if-passes {ℓ} :
    {A : Type ℓ} (p : A → Bool) (xs : List A) (x : A) → find_if p xs ≡ some x → p x ≡ true
find_if-passes p [] x e = cc
find_if-passes p (y ∷ ys) x e = elim (Bool-cases (p y)) [
  | inl hit ↦ ground (arith, e, hit)
  | inr miss ↦ find_if-passes p ys x (ground (arith, e, miss))
]

module _ {Name : Type 0} (names : NameOps Name) (default_lifetime sent now : ℕ) (e : Entry Name)
    (face : Face) (interest : Interest Name) where
  abbrev forwarded : Entry Name
  forwarded = insert_or_update_out_record default_lifetime sent e face interest

  -- Until the lifetime of the Interest that was sent to a face is over, canForwardToLegacy refuses
  -- the face.
  pub can_forward_to_legacy-insert :
      now ≤ sent + nanoseconds (lifetime_or default_lifetime interest.lifetime)
      → can_forward_to_legacy names now forwarded face ≡ false
  unfolding can_forward_to_legacy
  can_forward_to_legacy-insert unexpired =
      let ((r, found, _, _, expiry, _), _, _) =
        get_out_record-insert default_lifetime sent e face interest in
      let test : OutRecord → Bool = λ o. same_face o.face face && leb now o.expiry in
      let passes : test r ≡ true = ground (
        arith,
        find_if-passes (out_record_of face) forwarded.out_records r
            (unfold get_out_record in found),
        expiry,
      ) in
      rw
        (any_of-find_if (out_record_of face) test forwarded.out_records r
          (unfold get_out_record in found) passes)
        refl

  -- Until then the entry is pending, if no Nack stood on the face's out-record.
  pub has_pending_out_records-insert :
      now ≤ sent + nanoseconds (lifetime_or default_lifetime interest.lifetime)
      → nack_of (get_out_record e face) ≡ none
      → has_pending_out_records now forwarded ≡ true
  unfolding has_pending_out_records get_out_record
  has_pending_out_records-insert unexpired un_nacked =
      let ((r, found, _, _, expiry, nack), _, _) =
        get_out_record-insert default_lifetime sent e face interest in
      any_of-find_if (out_record_of face) (is_pending now) forwarded.out_records r found
        (ground (arith, expiry, nack, un_nacked))

  -- A Nack that stands on the out-record of the only upstream stays there when the Interest is sent
  -- to it again, and the entry does not count as pending, at any time.
  pub has_pending_out_records_stale_nack :
      (r : OutRecord) (reason : ℕ)
      → e.out_records ≡ r ∷ []
      → out_record_of face r ≡ true
      → r.incoming_nack ≡ some reason
      → has_pending_out_records now forwarded ≡ false
  unfolding has_pending_out_records insert_or_update_out_record update_first
  has_pending_out_records_stale_nack r reason only same nacked =
      let update = update_out_record default_lifetime sent interest in
      let stored : update_first (out_record_of face) update e.out_records ≡ some (update r ∷ []) =
        ap (update_first (out_record_of face) update) only ∙ rw same in
      rw (stored, insert_or_update_out_record) (ground (arith, nacked))
