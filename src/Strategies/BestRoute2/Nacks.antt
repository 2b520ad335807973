-- ===== src/Strategies/BestRoute2/Nacks.antt =====
-- What best-route 2 makes of Nacks.
use ndn_share.Base.{
  map, any_of, ℕ, ◌≡◌, ◌≢◌, ap, ◌∙◌, inl, inr, Bool-cases, Option-cases, none, some, List, [], ◌∷◌,
  ltb, ◌==◌, if◌then◌else◌, arith,
}
use ndn_share.Face.{Face, same_face}
use ndn_share.Packet.{NameOps, Interest}
use ndn_share.Pit.{Entry, InRecord, get_in_record}
use ndn_share.Fib.{NextHop}
use ndn_share.Fw.FaceTable.{FaceTable}
use ndn_share.Fw.Interfaces.{Action, send_nack}
use ndn_share.Strategies.Common.{nack_downstreams, send_nacks}
use ndn_share.Strategies.Common.Downstreams.{is_at, nack_downstreams-downstreams}
use ndn_share.Strategies.BestRoute2.{NackScan, scan_nacks, after_receive_nack}
use ndn_share.Strategies.BestRoute2.Scan.{
  not_nacked, IsLeastSevere, IsNotNacked, scan_nacks-is_below, scan_nacks-is_one, scan_nacks-count,
  scan_nacks-last, scan_nacks-only, start_scan,
}

module _ {Name : Type 0} (names : NameOps Name) (no_route none_reason : ℕ)
    (lookup_fib : Entry Name → List NextHop) (now : ℕ) (table : FaceTable) (in_face : Face)
    (interest : Interest Name) (reason : ℕ) (e : Entry Name) where
  -- What best-route 2 may do with a Nack.
  pub data NackChoice : List Action → Type 0 where
    waits :
        not_nacked e.out_records ≢ 0
        → ((face : Face)
            → not_nacked e.out_records ≡ 1
            → IsNotNacked none_reason e.out_records face
            → get_in_record e face ≡ none)
        → NackChoice []
    goes_back :
        (face : Face) (least : ℕ) (r : InRecord Name)
        → not_nacked e.out_records ≡ 1
        → IsNotNacked none_reason e.out_records face
        → get_in_record e face ≡ some r
        → IsLeastSevere none_reason e.out_records least
        → NackChoice (send_nack e.id face least ∷ [])
    goes_to_all :
        (least : ℕ) (faces : List Face)
        → not_nacked e.out_records ≡ 0
        → IsLeastSevere none_reason e.out_records least
        → ((face : Face)
            → any_of (is_at face) faces
              ≡ any_of (λ (r : InRecord Name). same_face r.face face) e.in_records)
        → NackChoice (map (λ face. send_nack e.id face least) faces)

  abbrev scanned : NackScan
  scanned = scan_nacks none_reason (start_scan none_reason) e.out_records

  scanned-IsLeastSevere : IsLeastSevere none_reason e.out_records scanned.least_severe_reason
  scanned-IsLeastSevere = record {
    is_below = scan_nacks-is_below none_reason (start_scan none_reason) e.out_records;
    is_one = λ ne. elim (scan_nacks-is_one none_reason (start_scan none_reason) e.out_records) [
      | inl kept ↦ absurd (ne kept)
      | inr found ↦ found
    ];
  }

  -- Where exactly one out-record has no Nack, its face is no downstream.
  abbrev NoneBack : Type 0
  NoneBack =
      (face : Face)
      → not_nacked e.out_records ≡ 1
      → IsNotNacked none_reason e.out_records face
      → get_in_record e face ≡ none

  only_last :
      (face : Face)
      → not_nacked e.out_records ≡ 1
      → IsNotNacked none_reason e.out_records face
      → scanned.last_face_not_nacked ≡ some face
  only_last face one n =
      scan_nacks-only none_reason (start_scan none_reason) e.out_records n.position n.out_record one
        n.is_at n.no_nack
      ∙ ap some n.same_face

  waiting-NackChoice :
      NoneBack
      → NackChoice (
          if ltb 0 scanned.n_out_records_not_nacked
          then []
          else send_nacks e scanned.least_severe_reason [])
  unfolding send_nacks
  waiting-NackChoice none_back =
      let count = scan_nacks-count none_reason (start_scan none_reason) e.out_records in
      elim (Bool-cases (ltb 0 scanned.n_out_records_not_nacked)) [
        | inl some_left ↦ rw some_left (waits (ground (arith, some_left, count)) none_back)
        | inr none_left ↦ rw none_left (
            goes_to_all scanned.least_severe_reason (nack_downstreams [] [] e.in_records)
              (ground (arith, none_left, count)) scanned-IsLeastSevere
              (nack_downstreams-downstreams e.in_records))
      ]

  -- With a Nack, best-route 2 does one of three things. Where exactly one out-record has none, and
  -- its face is a downstream, that one gets a Nack; where every out-record has one, all downstreams
  -- get a Nack, and no other face does; else it waits. The reason that it gives is the least severe of
  -- those that came.
  pub after_receive_nack-NackChoice :
      NackChoice (
        after_receive_nack names no_route none_reason lookup_fib now table in_face interest reason
          e)
  unfolding after_receive_nack
  after_receive_nack-NackChoice =
      let count = scan_nacks-count none_reason (start_scan none_reason) e.out_records in
      elim (Bool-cases (scanned.n_out_records_not_nacked == 1)) [
        | inr several ↦
            rw (several, after_receive_nack)
              (waiting-NackChoice (λ face one n. absurd (ground (arith, several, count, one))))
        | inl one ↦ elim (Option-cases scanned.last_face_not_nacked) [
          | inl nobody ↦
              rw (one, after_receive_nack, nobody)
                (waiting-NackChoice (λ face is n. let last = only_last face is n in absurd (cc)))
          | inr (face, last) ↦ elim (Option-cases (get_in_record e face)) [
            | inl upstream ↦
                rw (one, after_receive_nack, last, upstream)
                  (waiting-NackChoice (λ other is n.
                    let same : face ≡ other = ground (arith, last, only_last other is n) in
                    rw (← same) upstream))
            | inr (r, downstream) ↦
                rw (one, after_receive_nack, last, downstream)
                  (goes_back face scanned.least_severe_reason r (ground (arith, one, count))
                    (elim (scan_nacks-last none_reason (start_scan none_reason) e.out_records face
                      last) [ inl absent ↦ absurd (cc) | inr is ↦ is ])
                    downstream scanned-IsLeastSevere)
          ]
        ]
      ]
