-- ===== src/Strategies/BestRoute2/Earliest.antt =====
-- findEligibleNextHopWithEarliestOutRecord, of the next hops that may be used.
use ndn_share.Base.{
  ℕ, zero, suc, ◌≤◌, ◌<◌, ◌≡◌, refl, sym, ap, ◌∙◌, ◌⊎◌, inl, inr, true, Bool-cases, Option-cases,
  Option, none, some, List, [], ◌∷◌, ltb, get_elem?, arith,
}
use ndn_share.Packet.{NameOps}
use ndn_share.Pit.{Entry, OutRecord, get_out_record}
use ndn_share.Fib.{NextHop}
use ndn_share.Fw.FaceTable.{FaceTable}
use ndn_share.Strategies.BestRoute2.{is_eligible, consider, find_earliest}

module _ {Name : Type 0} (names : NameOps Name) (table : FaceTable) (e : Entry Name)
    (current_downstream : ℕ) where
  -- The next hop may be used, and has the out-record.
  pub record WasUsed (hop : NextHop) (r : OutRecord) : Type 0 where
    pub is_usable : is_eligible names table e current_downstream none hop ≡ true
    pub has_record : get_out_record e hop.face ≡ some r

  -- No next hop that may be used has an out-record from before this time.
  abbrev pub NoneBefore : ℕ → List NextHop → Type 0
  NoneBefore t hops =
      (i : ℕ) (other : NextHop) (r : OutRecord)
      → get_elem? hops i ≡ some other
      → WasUsed other r
      → t ≤ r.last_renewed

  -- A next hop with the earliest out-record of all that may be used.
  pub record IsEarliest (hops : List NextHop) (hop : NextHop) : Type 0 where
    pub position : ℕ
    pub out_record : OutRecord
    pub is_at : get_elem? hops position ≡ some hop
    pub was_used : WasUsed hop out_record
    pub none_before : NoneBefore out_record.last_renewed hops

  -- What considering a next hop does.
  data Considered (hop : NextHop) (best : Option NextHop × Option ℕ) : Type 0 where
    is_skipped :
        consider names table e current_downstream hop best ≡ best
        → ((r : OutRecord) → WasUsed hop r → (t : ℕ) × ((best.1 ≡ some t) × (t ≤ r.last_renewed)))
        → Considered hop best
    is_taken :
        (r : OutRecord)
        → consider names table e current_downstream hop best ≡ (some hop, some r.last_renewed)
        → WasUsed hop r
        → ((t : ℕ) → best.1 ≡ some t → r.last_renewed < t)
        → Considered hop best

  consider-Considered :
      (hop : NextHop) (found : Option NextHop) (t : Option ℕ) → Considered hop (found, t)
  unfolding consider
  consider-Considered hop found t =
      elim (Bool-cases (is_eligible names table e current_downstream none hop)) [
        | inr not_usable ↦
            is_skipped (rw (not_usable, consider) refl)
              (λ r u. let usable = u.is_usable in absurd (cc))
        | inl usable ↦ elim (Option-cases (get_out_record e hop.face)) [
          | inl unused ↦
              is_skipped (rw (usable, consider, unused) refl)
                (λ r u. let has = u.has_record in absurd (cc))
          | inr (r, used) ↦ elim (Option-cases t) [
            | inl first ↦
                is_taken r (rw (usable, consider, used, first) refl)
                  (record { is_usable = usable; has_record = used }) (λ t' is. absurd (cc))
            | inr (t', is) ↦ elim (Bool-cases (ltb r.last_renewed t')) [
              | inl earlier ↦
                  is_taken r (rw (usable, consider, used, is, earlier) refl)
                    (record { is_usable = usable; has_record = used })
                    (λ t'' is'. ground (arith, is, is', earlier))
              | inr later ↦ is_skipped (rw (usable, consider, used, is, later) refl) (λ r' u.
                  let has = u.has_record in
                  let same : r ≡ r' = ground (arith, has, used) in
                  (t', (is, rw (← same) (ground (arith, later)))))
            ]
          ]
        ]
      ]

  NoneBefore-more :
      (t : ℕ) (x : NextHop) (xs : List NextHop)
      → ((r : OutRecord) → WasUsed x r → t ≤ r.last_renewed)
      → NoneBefore t xs
      → NoneBefore t (x ∷ xs)
  NoneBefore-more t x xs here later zero other r is_at u =
      let same : x ≡ other = ground (arith, is_at) in here r (rw same u)
  NoneBefore-more t x xs here later (suc i) other r is_at u = later i other r is_at u

  -- No next hop that may be used has an out-record.
  abbrev pub NoneUsed : List NextHop → Type 0
  NoneUsed hops =
      (i : ℕ) (other : NextHop) (r : OutRecord) → get_elem? hops i ≡ some other → ¬ WasUsed other r

  NoneUsed-more :
      (x : NextHop) (xs : List NextHop)
      → ((r : OutRecord) → ¬ WasUsed x r)
      → NoneUsed xs
      → NoneUsed (x ∷ xs)
  NoneUsed-more x xs here later zero other r is_at u =
      let same : x ≡ other = ground (arith, is_at) in here r (rw same u)
  NoneUsed-more x xs here later (suc i) other r is_at u = later i other r is_at u

  -- The loop, from a next hop that was found on.
  find_earliest-from :
      (b : NextHop) (t : ℕ) (hops : List NextHop)
      → (hop : NextHop) × ((find_earliest names table e current_downstream (some b, some t) hops
            ≡ some hop)
          × (((hop ≡ b) × NoneBefore t hops)
              ⊎ ((s : IsEarliest hops hop) × (s.out_record.last_renewed < t))))
  unfolding find_earliest
  find_earliest-from b t [] = (b, (refl, inl (refl, λ i other r is_at u. absurd (cc))))
  find_earliest-from b t (x ∷ xs) = elim (consider-Considered x (some b) (some t)) [
    | is_skipped same here ↦
        let not_before : (r : OutRecord) → WasUsed x r → t ≤ r.last_renewed =
          λ r u. let (t', (is, le)) = here r u in ground (arith, is, le) in
        let (hop, (found, later)) = find_earliest-from b t xs in
        (
          hop,
          (
            ap (λ best. find_earliest names table e current_downstream best xs) same ∙ found,
            elim later [
              | inl (is, none_before) ↦ inl (is, NoneBefore-more t x xs not_before none_before)
              | inr (s, less) ↦ inr (
                record {
                  position = suc s.position;
                  out_record = s.out_record;
                  is_at = s.is_at;
                  was_used = s.was_used;
                  none_before =
                      NoneBefore-more s.out_record.last_renewed x xs
                        (λ r u. omega (arith, less, not_before r u)) s.none_before;
                },
                less,
              )
            ],
          ),
        )
    | is_taken rx taken used less_than ↦
        let less = less_than t refl in
        let own : (r : OutRecord) → WasUsed x r → rx.last_renewed ≤ r.last_renewed = λ r u.
          let a = used.has_record in
          let b = u.has_record in
          let same : rx ≡ r = ground (arith, a, b) in rw (← same) (omega arith) in
        let (hop, (found, later)) = find_earliest-from x rx.last_renewed xs in
        (
          hop,
          (
            ap (λ best. find_earliest names table e current_downstream best xs) taken ∙ found,
            elim later [
              | inl (is, none_before) ↦ inr (
                record {
                  position = zero;
                  out_record = rx;
                  is_at = ap some (sym is);
                  was_used = rw is used;
                  none_before = NoneBefore-more rx.last_renewed x xs own none_before;
                },
                less,
              )
              | inr (s, less') ↦ inr (
                record {
                  position = suc s.position;
                  out_record = s.out_record;
                  is_at = s.is_at;
                  was_used = s.was_used;
                  none_before =
                      NoneBefore-more s.out_record.last_renewed x xs
                        (λ r u. omega (arith, less', own r u)) s.none_before;
                },
                omega (arith, less, less'),
              )
            ],
          ),
        )
  ]

  -- It finds a next hop with the earliest out-record, unless none that may be used has one.
  pub find_earliest-IsEarliest :
      (hops : List NextHop)
      → ((find_earliest names table e current_downstream (none, none) hops ≡ none) × NoneUsed hops)
        ⊎ ((hop : NextHop) × ((find_earliest names table e current_downstream (none, none) hops
                ≡ some hop)
              × IsEarliest hops hop))
  unfolding find_earliest
  find_earliest-IsEarliest [] = inl (refl, λ i other r is_at u. cc)
  find_earliest-IsEarliest (x ∷ xs) = elim (consider-Considered x none none) [
    | is_skipped same here ↦
        let unused : (r : OutRecord) → WasUsed x r → ⊥ =
          λ r u. let (t, (is, le)) = here r u in cc in
        let step = ap (λ best. find_earliest names table e current_downstream best xs) same in
        elim (find_earliest-IsEarliest xs) [
          | inl (missed, nowhere) ↦ inl (step ∙ missed, NoneUsed-more x xs unused nowhere)
          | inr (hop, (found, s)) ↦ inr (
            hop,
            (
              step ∙ found,
              record {
                position = suc s.position;
                out_record = s.out_record;
                is_at = s.is_at;
                was_used = s.was_used;
                none_before =
                    NoneBefore-more s.out_record.last_renewed x xs (λ r u. absurd (unused r u))
                      s.none_before;
              },
            ),
          )
        ]
    | is_taken rx taken used less_than ↦
        let own : (r : OutRecord) → WasUsed x r → rx.last_renewed ≤ r.last_renewed = λ r u.
          let a = used.has_record in
          let b = u.has_record in
          let same : rx ≡ r = ground (arith, a, b) in rw (← same) (omega arith) in
        let step = ap (λ best. find_earliest names table e current_downstream best xs) taken in
        let (hop, (found, later)) = find_earliest-from x rx.last_renewed xs in
        inr (
          hop,
          (
            step ∙ found,
            elim later [
              | inl (is, none_before) ↦ record {
                position = zero;
                out_record = rx;
                is_at = ap some (sym is);
                was_used = rw is used;
                none_before = NoneBefore-more rx.last_renewed x xs own none_before;
              }
              | inr (s, less') ↦ record {
                position = suc s.position;
                out_record = s.out_record;
                is_at = s.is_at;
                was_used = s.was_used;
                none_before =
                    NoneBefore-more s.out_record.last_renewed x xs
                      (λ r u. omega (arith, less', own r u)) s.none_before;
              }
            ],
          ),
        )
  ]
