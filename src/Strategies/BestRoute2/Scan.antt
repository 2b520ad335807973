-- ===== src/Strategies/BestRoute2/Scan.antt =====
-- The loop of best-route 2 over the Nacks of the out-records (fw/best-route-strategy2.cpp).
use ndn_share.Base.{
  ℕ, zero, suc, ◌+◌, ◌≤◌, ◌≡◌, ◌≢◌, refl, sym, ap, ◌∙◌, ◌⊎◌, inl, inr, Option-cases, none, some,
  List, [], ◌∷◌, get_elem?, arith,
}
use ndn_share.Face.{Face}
use ndn_share.Pit.{OutRecord}
use ndn_share.Strategies.BestRoute2.{compare_less_severe, NackScan, scan_nack, scan_nacks}

abbrev pub not_nacked : List OutRecord → ℕ
not_nacked [] = 0
not_nacked (r ∷ rs) = elim r.incoming_nack [ none ↦ 1 | some reason ↦ 0 ] + not_nacked rs

module _ (none_reason : ℕ) where
  -- A reason that is at most those of all Nacks but NONE, and is NONE only if all are, as it is one
  -- of them else.
  pub record IsLeastSevere (rs : List OutRecord) (least : ℕ) : Type 0 where
    pub is_below :
        (i : ℕ) (r : OutRecord) (reason : ℕ)
        → get_elem? rs i ≡ some r
        → r.incoming_nack ≡ some reason
        → reason ≢ none_reason
        → (least ≤ reason) × (least ≢ none_reason)
    pub is_one :
        least ≢ none_reason
        → (i : ℕ) × ((r : OutRecord) × ((get_elem? rs i ≡ some r) × (r.incoming_nack ≡ some least)))

  compare_less_severe_lem :
      (x y : ℕ)
      → (x ≢ none_reason
          → (compare_less_severe none_reason x y ≤ x)
            × (compare_less_severe none_reason x y ≢ none_reason))
        × ((y ≢ none_reason
              → (compare_less_severe none_reason x y ≤ y)
                × (compare_less_severe none_reason x y ≢ none_reason))
            × ((compare_less_severe none_reason x y ≡ x)
                ⊎ (compare_less_severe none_reason x y ≡ y)))
  unfolding compare_less_severe
  compare_less_severe_lem x y =
      ((λ h. (ground arith, ground arith)), ((λ h. (ground arith, ground arith)), ground arith))

  scan_nacks-below :
      (s : NackScan) (rs : List OutRecord)
      → s.least_severe_reason ≢ none_reason
      → ((scan_nacks none_reason s rs).least_severe_reason ≤ s.least_severe_reason)
        × ((scan_nacks none_reason s rs).least_severe_reason ≢ none_reason)
  unfolding scan_nacks scan_nack
  scan_nacks-below s [] h = (omega arith, h)
  scan_nacks-below s (r ∷ rs) h = elim (Option-cases r.incoming_nack) [
    | inl absent ↦
        rw (absent, scan_nacks, scan_nack)
          (scan_nacks-below
            (record {
              n_out_records_not_nacked = s.n_out_records_not_nacked + 1;
              last_face_not_nacked = some r.face;
              least_severe_reason = s.least_severe_reason;
            })
            rs h)
    | inr (reason, present) ↦
        let least = compare_less_severe none_reason s.least_severe_reason reason in
        let (le, ne) = (compare_less_severe_lem s.least_severe_reason reason).0 h in
        let (le', ne') = scan_nacks-below (record s { least_severe_reason = least }) rs ne in
        rw (present, scan_nacks, scan_nack) (omega (arith, le, le'), ne')
  ]

  pub scan_nacks-is_below :
      (s : NackScan) (rs : List OutRecord) (i : ℕ) (r : OutRecord) (reason : ℕ)
      → get_elem? rs i ≡ some r
      → r.incoming_nack ≡ some reason
      → reason ≢ none_reason
      → ((scan_nacks none_reason s rs).least_severe_reason ≤ reason)
        × ((scan_nacks none_reason s rs).least_severe_reason ≢ none_reason)
  unfolding scan_nacks scan_nack
  scan_nacks-is_below s [] i r reason is_at present ne = absurd (cc)
  scan_nacks-is_below s (x ∷ xs) zero r reason is_at present ne =
      let same : x ≡ r = ground (arith, is_at) in
      let present' : x.incoming_nack ≡ some reason = rw same present in
      let least = compare_less_severe none_reason s.least_severe_reason reason in
      let (le, not_none) = (compare_less_severe_lem s.least_severe_reason reason).1.0 ne in
      let (le', not_none') =
        scan_nacks-below (record s { least_severe_reason = least }) xs not_none in
      rw (present', scan_nacks, scan_nack) (omega (arith, le, le'), not_none')
  scan_nacks-is_below s (x ∷ xs) (suc i) r reason is_at present ne =
      scan_nacks-is_below (scan_nack none_reason s x) xs i r reason is_at present ne

  pub scan_nacks-is_one :
      (s : NackScan) (rs : List OutRecord)
      → ((scan_nacks none_reason s rs).least_severe_reason ≡ s.least_severe_reason)
        ⊎ ((i : ℕ) × ((r : OutRecord) × ((get_elem? rs i ≡ some r)
                × (r.incoming_nack ≡ some (scan_nacks none_reason s rs).least_severe_reason))))
  unfolding scan_nacks scan_nack
  scan_nacks-is_one s [] = inl refl
  scan_nacks-is_one s (x ∷ xs) = elim (scan_nacks-is_one (scan_nack none_reason s x) xs) [
    | inr (i, (r, (is_at, is))) ↦ inr (suc i, (r, (is_at, is)))
    | inl kept ↦ elim (Option-cases x.incoming_nack) [
      | inl absent ↦ inl (kept ∙ rw (absent, scan_nack) refl)
      | inr (reason, present) ↦
          let step : (scan_nack none_reason s x).least_severe_reason
              ≡ compare_less_severe none_reason s.least_severe_reason reason =
            rw (present, scan_nack) refl in
          elim (compare_less_severe_lem s.least_severe_reason reason).1.1 [
            | inl first ↦ inl (kept ∙ step ∙ first)
            | inr second ↦
                let is = sym (kept ∙ step ∙ second) in inr (zero, (x, (refl, present ∙ ap some is)))
          ]
    ]
  ]

  pub scan_nacks-count :
      (s : NackScan) (rs : List OutRecord)
      → (scan_nacks none_reason s rs).n_out_records_not_nacked
        ≡ s.n_out_records_not_nacked + not_nacked rs
  unfolding scan_nacks scan_nack
  scan_nacks-count s [] = omega arith
  scan_nacks-count s (x ∷ xs) =
      let rest = scan_nacks-count (scan_nack none_reason s x) xs in ground (arith, rest)

  -- The face of an out-record without a Nack.
  pub record IsNotNacked (rs : List OutRecord) (face : Face) : Type 0 where
    pub position : ℕ
    pub out_record : OutRecord
    pub is_at : get_elem? rs position ≡ some out_record
    pub no_nack : out_record.incoming_nack ≡ none
    pub same_face : out_record.face ≡ face

  pub scan_nacks-last :
      (s : NackScan) (rs : List OutRecord) (face : Face)
      → (scan_nacks none_reason s rs).last_face_not_nacked ≡ some face
      → (s.last_face_not_nacked ≡ some face) ⊎ IsNotNacked rs face
  unfolding scan_nacks scan_nack
  scan_nacks-last s [] face h = inl h
  scan_nacks-last s (x ∷ xs) face h = elim (scan_nacks-last (scan_nack none_reason s x) xs face h) [
    | inr later ↦ inr (record {
      position = suc later.position;
      out_record = later.out_record;
      is_at = later.is_at;
      no_nack = later.no_nack;
      same_face = later.same_face;
    })
    | inl now ↦ elim (Option-cases x.incoming_nack) [
      | inr (reason, present) ↦ inl (ground (arith, now, present))
      | inl absent ↦ inr (record {
        position = zero;
        out_record = x;
        is_at = refl;
        no_nack = absent;
        same_face = ground (arith, now, absent);
      })
    ]
  ]

  scan_nacks-kept :
      (s : NackScan) (rs : List OutRecord)
      → not_nacked rs ≡ 0
      → (scan_nacks none_reason s rs).last_face_not_nacked ≡ s.last_face_not_nacked
  unfolding scan_nacks scan_nack
  scan_nacks-kept s [] h = refl
  scan_nacks-kept s (x ∷ xs) h = elim (Option-cases x.incoming_nack) [
    | inl absent ↦ absurd (ground (arith, h, absent))
    | inr (reason, present) ↦
        scan_nacks-kept (scan_nack none_reason s x) xs (ground (arith, h, present))
        ∙ rw (present, scan_nack) refl
  ]

  position-not_nacked :
      (i : ℕ) (rs : List OutRecord) (r : OutRecord)
      → get_elem? rs i ≡ some r
      → r.incoming_nack ≡ none
      → not_nacked rs ≢ 0
  position-not_nacked i [] r is_at absent = absurd (cc)
  position-not_nacked zero (x ∷ xs) r is_at absent =
      let same : x ≡ r = ground (arith, is_at) in
      let absent' : x.incoming_nack ≡ none = rw same absent in λ z. ground (arith, absent', z)
  position-not_nacked (suc i) (x ∷ xs) r is_at absent =
      let rest = position-not_nacked i xs r is_at absent in λ z. rest (omega (arith, z))

  -- The one out-record without a Nack is the last that the scan noted.
  pub scan_nacks-only :
      (s : NackScan) (rs : List OutRecord) (i : ℕ) (r : OutRecord)
      → not_nacked rs ≡ 1
      → get_elem? rs i ≡ some r
      → r.incoming_nack ≡ none
      → (scan_nacks none_reason s rs).last_face_not_nacked ≡ some r.face
  unfolding scan_nacks scan_nack
  scan_nacks-only s [] i r one is_at absent = absurd (cc)
  scan_nacks-only s (x ∷ xs) zero r one is_at absent =
      let same : x ≡ r = ground (arith, is_at) in
      let absent' : x.incoming_nack ≡ none = rw same absent in
      scan_nacks-kept (scan_nack none_reason s x) xs (ground (arith, one, absent'))
      ∙ rw (absent', scan_nack) (ap (λ (r : OutRecord). some r.face) same)
  scan_nacks-only s (x ∷ xs) (suc i) r one is_at absent =
      let later = position-not_nacked i xs r is_at absent in
      let rest : not_nacked xs ≡ 1 = elim (Option-cases x.incoming_nack) [
        | inl here ↦ absurd (later (ground (arith, one, here)))
        | inr (reason, present) ↦ ground (arith, one, present)
      ] in
      scan_nacks-only (scan_nack none_reason s x) xs i r rest is_at absent

abbrev pub start_scan : (none_reason : ℕ) → NackScan
start_scan none_reason = record {
  n_out_records_not_nacked = 0;
  last_face_not_nacked = none;
  least_severe_reason = none_reason;
}
