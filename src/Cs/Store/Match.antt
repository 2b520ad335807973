-- ===== src/Cs/Store/Match.antt =====
-- Cs::find searches to the end what is under the Interest's name, and hits what is there.
use ndn_share.Base.{
  ap, ◌∙◌, ℕ, zero, suc, ◌+◌, ◌-◌, ◌≤◌, ◌<◌, ◌≡◌, refl, inl, inr, true, false, Bool-cases,
  Option-cases, Option, none, some, List, leb, ◌==◌, length, get_elem?, if◌then◌else◌, arith,
}
use ndn_share.Packet.{Interest}
use ndn_share.Cs.Entry.{CsEntry}
use ndn_share.Cs.Order.{CsEnv, is_before, lower_bound, range}
use ndn_share.Cs.Store.{satisfies, prev_of, find_leftmost, find_rightmost, find_bounds, find_match}
use ndn_share.Cs.Store.Ordered.{IsOrdered}
use ndn_share.Base.Positions.{Between, get_elem?-length, get_elem?-some}
use ndn_share.Cs.Store.LowerBound.{
  FindLastLaws, SearchLaws, IsUnderName, lower_bound-le, lower_bound-before, lower_bound_mono,
  lower_bound-length, IsOrdered-after,
}
use ndn_share.Cs.Store.Find.{
  IsSearched, find_leftmost-IsSearched, find_last_if-IsSearched, widen_hit, join_miss,
}

prev_of-some :
    {Name : Type 0} (right : ℕ) (es : List (CsEntry Name)) (prev : CsEntry Name)
    → 0 < right
    → get_elem? es (right - 1) ≡ some prev
    → prev_of right es ≡ some prev
prev_of-some zero es prev h is_at = absurd (omega arith)
prev_of-some (suc i) es prev h is_at =
    let same : i ≡ suc i - 1 = omega arith in ap (get_elem? es) same ∙ is_at

module _ {Name : Type 0} (env : CsEnv Name) (laws : SearchLaws env) (now : ℕ)
    (interest : Interest Name) (es : List (CsEntry Name)) where
  abbrev pub start : ℕ
  start = lower_bound env interest.name es

  -- Everything in [start, last) has the Interest's name as a prefix.
  abbrev pub IsUnder : ℕ → Type 0
  IsUnder last =
      (e : CsEntry Name)
      → Between start last es e
      → env.get_prefix e.packet.name (env.size interest.name) ≡ interest.name

  abbrev pub IsDone : ℕ → ℕ → Type 0
  IsDone fuel right =
      (result : Option (CsEntry Name)) × ((find_rightmost env now interest fuel es start right
          ≡ some result)
        × IsSearched env now interest es start right result)

  -- The prefix one component longer than the Interest's name.
  abbrev longer : CsEntry Name → Name
  longer prev = env.get_prefix prev.packet.name (env.size interest.name + 1)

  -- The sub-namespace of the entry before `right` starts between `start` and that entry.
  left_bounds :
      (right last : ℕ) (prev : CsEntry Name)
      → env.split_digest interest.name ≡ none
      → IsUnder last
      → right ≤ last
      → start < right
      → get_elem? es (right - 1) ≡ some prev
      → (env.size prev.packet.name == env.size interest.name) ≡ false
      → (start ≤ lower_bound env (longer prev) es) × (lower_bound env (longer prev) es < right)
  left_bounds right last prev plain under h h' is_at deeper =
      let prefix = under prev (record {
        position = right - 1;
        from = omega arith;
        before = omega arith;
        is_at = is_at;
      }) in
      let low =
        lower_bound_mono env interest.name (longer prev) es
          (λ e behind. laws.longer_prefix interest.name prev e plain prefix deeper behind) in
      let high =
        lower_bound-le env (longer prev) es (right - 1) prev is_at
          (laws.prefix_first prev (env.size interest.name + 1)) in
      (low, omega (arith, high, h'))

  -- For an Interest whose name does not end in a digest:
  -- the loop of findRightmost, from a position at most at the end of the table, up to which all from
  -- the lower bound on has the Interest's name as a prefix, ends with fuel for one round more than the
  -- position, and has searched all between the lower bound and the position.
  pub find_rightmost-IsDone :
      (fuel right last : ℕ)
      → env.split_digest interest.name ≡ none
      → IsUnder last
      → start ≤ right
      → right ≤ last
      → right ≤ length es
      → right < fuel
      → IsDone fuel right
  unfolding find_rightmost
  find_rightmost-IsDone zero right last plain under a b c enough = absurd (omega arith)
  find_rightmost-IsDone (suc fuel) right last plain under a b c enough =
      elim (Bool-cases (right == start)) [
        | inl at_start ↦ (
          none,
          (
            rw (at_start, find_rightmost) refl,
            record {
              hit = λ e found. absurd (cc);
              miss = λ missed e between.
                  absurd (ground (arith, at_start, between.from, between.before));
            },
          ),
        )
        | inr ahead ↦
            let below : start < right = ground (arith, a, ahead) in
            let (prev, is_at) = get_elem?-length (right - 1) es (omega arith) in
            let before = prev_of-some right es prev (omega (arith, below)) is_at in
            elim (Bool-cases (env.size prev.packet.name == env.size interest.name)) [
              | inl exact ↦ (
                _,
                (
                  rw (ahead, find_rightmost, before, exact) refl,
                  find_last_if-IsSearched env now interest laws.last_laws es start right,
                ),
              )
              | inr deeper ↦
                  let (low, high) = left_bounds right last prev plain under b below is_at deeper in
                  let left = lower_bound env (longer prev) es in
                  let here = find_leftmost-IsSearched env now interest es left right in
                  elim (Option-cases (find_leftmost env now interest (range left right es))) [
                    | inr (e, found) ↦ (
                      some e,
                      (
                        rw (ahead, find_rightmost, before, deeper, found) refl,
                        widen_hit env now interest es start left right e low (rw (← found) here),
                      ),
                    )
                    | inl missed ↦
                        let (result, (eq, s)) =
                          find_rightmost-IsDone fuel left last plain under low
                            (omega (arith, high, b)) (omega (arith, high, c))
                            (omega (arith, high, enough)) in
                        (
                          result,
                          (
                            rw (ahead, find_rightmost, before, deeper, missed) eq,
                            join_miss env now interest es start left right result
                                (omega (arith, high)) (rw (← missed) here) s,
                          ),
                        )
                  ]
            ]
      ]

  module _ (ordered : IsOrdered env es) where
    IsOrdered-below :
        (q : Name) (i : ℕ) (e : CsEntry Name)
        → get_elem? es i ≡ some e
        → is_before env q e ≡ true
        → i < lower_bound env q es
    IsOrdered-below q i e is_at behind = elim (Bool-cases (leb (lower_bound env q es) i)) [
      | inl after ↦
          let not_before = IsOrdered-after env q es i e ordered is_at (ground (arith, after)) in
          absurd (cc)
      | inr before ↦ ground (arith, before)
    ]

    abbrev pub last : ℕ
    last =
        if env.size interest.name == 0
        then length es
        else lower_bound env (env.get_successor interest.name) es

    pub last-IsUnder : env.split_digest interest.name ≡ none → IsUnder last
    last-IsUnder plain e b = elim (Bool-cases (env.size interest.name == 0)) [
      | inl root ↦ laws.empty_prefix interest.name e root
      | inr inner ↦
          let before_last : b.position < lower_bound env (env.get_successor interest.name) es =
            ground (arith, inner, b.before) in
          laws.successor_last interest.name e plain inner
            (IsOrdered-after env interest.name es b.position e ordered b.is_at b.from)
            (lower_bound-before env (env.get_successor interest.name) es b.position e b.is_at
              before_last)
    ]

    last-within : (start ≤ last) × (last ≤ length es)
    last-within = elim (Bool-cases (env.size interest.name == 0)) [
      | inl root ↦ rw root (lower_bound-length env interest.name es, omega arith)
      | inr inner ↦ rw inner (
        lower_bound_mono env interest.name (env.get_successor interest.name) es
            (λ e behind. laws.successor_after interest.name e inner behind),
        lower_bound-length env (env.get_successor interest.name) es,
      )
    ]

    -- What is under the Interest's name is between the bounds.
    pub under-Between :
        (i : ℕ) (e : CsEntry Name)
        → get_elem? es i ≡ some e
        → IsUnderName env interest.name e
        → Between start last es e
    under-Between i e is_at under =
        let (from, before) = laws.prefix_between interest.name e under in
        record {
          position = i;
          from = lower_bound-le env interest.name es i e is_at from;
          before = elim (Bool-cases (env.size interest.name == 0)) [
            | inl root ↦ rw root (get_elem?-some i es e is_at)
            | inr inner ↦
                rw inner
                  (IsOrdered-below (env.get_successor interest.name) i e is_at (before inner))
          ];
          is_at = is_at;
        }

    pub find_match-IsSearched :
        (env.is_rightmost interest ≡ true → env.split_digest interest.name ≡ none)
        → (result : Option (CsEntry Name)) × ((find_match env now interest es ≡ some result)
            × IsSearched env now interest es start last result)
    unfolding find_match find_bounds
    find_match-IsSearched plain = elim (Bool-cases (env.is_rightmost interest)) [
      | inl right ↦
          let (low, high) = last-within in
          let (result, (eq, s)) =
            find_rightmost-IsDone (suc (length es)) last last (plain right)
              (last-IsUnder (plain right)) low (omega arith) high (omega (arith, high)) in
          (result, (rw (right, find_match) eq, s))
      | inr left ↦ (
        find_leftmost env now interest (range start last es),
        (rw (left, find_match) refl, find_leftmost-IsSearched env now interest es start last),
      )
    ]

-- What a search hits is a stored entry, whatever the Interest.
module _ {Name : Type 0} (env : CsEnv Name) (laws : FindLastLaws env) (now : ℕ)
    (interest : Interest Name) (es : List (CsEntry Name)) where
  abbrev IsStored : CsEntry Name → Type 0
  IsStored e = (i : ℕ) × (get_elem? es i ≡ some e)

  leftmost-IsStored :
      (first last : ℕ) (e : CsEntry Name)
      → find_leftmost env now interest (range first last es) ≡ some e
      → IsStored e
  leftmost-IsStored first last e found =
      let (_, b) = (find_leftmost-IsSearched env now interest es first last).hit e found in
      (b.position, b.is_at)

  find_rightmost-IsStored :
      (fuel first right : ℕ) (e : CsEntry Name)
      → find_rightmost env now interest fuel es first right ≡ some (some e)
      → IsStored e
  unfolding find_rightmost
  find_rightmost-IsStored zero first right e found = absurd (cc)
  find_rightmost-IsStored (suc fuel) first right e found = elim (Bool-cases (right == first)) [
    | inl done ↦ absurd (ground (arith, found, done))
    | inr ahead ↦ elim (Option-cases (prev_of right es)) [
      | inl nothing ↦ absurd (ground (arith, found, ahead, nothing))
      | inr (prev, is_at) ↦
          elim (Bool-cases (env.size prev.packet.name == env.size interest.name)) [
            | inl exact ↦
                let hit : env.find_last_if (satisfies env now interest) (range first right es)
                    ≡ some e =
                  ground (arith, found, ahead, is_at, exact) in
                let (_, b) =
                  (find_last_if-IsSearched env now interest laws es first right).hit e hit in
                (b.position, b.is_at)
            | inr deeper ↦
                let left =
                  lower_bound env (env.get_prefix prev.packet.name (env.size interest.name + 1))
                    es in
                elim (Option-cases (find_leftmost env now interest (range left right es))) [
                  | inr (e', hit) ↦
                      let same : e' ≡ e = ground (arith, found, ahead, is_at, deeper, hit) in
                      leftmost-IsStored left right e (hit ∙ ap some same)
                  | inl missed ↦
                      find_rightmost-IsStored fuel first left e
                        (ground (arith, found, ahead, is_at, deeper, missed))
                ]
          ]
    ]
  ]

  pub find_match-IsStored :
      (e : CsEntry Name)
      → find_match env now interest es ≡ some (some e)
      → (i : ℕ) × (get_elem? es i ≡ some e)
  unfolding find_match
  find_match-IsStored e found =
      let (first, last) = find_bounds env now interest es in
      elim (Bool-cases (env.is_rightmost interest)) [
        | inl right ↦
            find_rightmost-IsStored (suc (length es)) first last e (ground (arith, found, right))
        | inr left ↦ leftmost-IsStored first last e (ground (arith, found, left))
      ]
