-- ===== src/NameTree/Tree/Match.antt =====
-- The longest prefix match by name, and trees that have with an entry its parent.
use ndn_share.Base.{
  ℕ, zero, suc, ◌≤◌, ◌<◌, ◌≡◌, ◌⊎◌, inl, inr, Bool, true, false, Bool-cases, Option, none, some,
  List, leb, if◌then◌else◌, length, take, arith,
}
use ndn_share.NameTree.Hashes.{Component}
use ndn_share.NameTree.Tree.{NameTree, find_exact_match, match_name, find_longest_prefix_match}

module _ {E : Type 0} where
  unfoldable pub has : NameTree E → List Component → Bool
  has t name = elim (find_exact_match t name) [ none ↦ false | some nte ↦ true ]

  -- With an entry, the tree has that of the name without the last component.
  abbrev pub IsClosed : NameTree E → Type 0
  IsClosed t =
      (q : List Component) (k : ℕ) → has t (take (suc k) q) ≡ true → has t (take k q) ≡ true

  module _ (entry_selector : E → Bool) (t : NameTree E) (name : List Component) where
    -- The prefix of this length has an entry, which is selected.
    unfoldable pub is_match : ℕ → Bool
    is_match n = elim (find_exact_match t (take n name)) [
      | none ↦ false
      | some nte ↦ entry_selector nte.content
    ]

    -- The longest prefix up to a length that matches, if any does.
    pub record IsLongest (n : ℕ) (result : Option ℕ) : Type 0 where
      pub hit :
          (m : ℕ)
          → result ≡ some m
          → (m ≤ n) × ((is_match m ≡ true) × ((k : ℕ) → m < k → k ≤ n → is_match k ≡ false))
      pub miss : result ≡ none → (k : ℕ) → k ≤ n → is_match k ≡ false

    match_name_step :
        (n : ℕ)
        → match_name entry_selector t name (suc n)
          ≡ (if is_match (suc n) then some (suc n) else match_name entry_selector t name n)
    unfolding match_name is_match
    match_name_step n = ground arith

    match_name_start : match_name entry_selector t name 0 ≡ (if is_match 0 then some 0 else none)
    unfolding match_name is_match
    match_name_start = ground arith

    up_to : (n k : ℕ) → k ≤ suc n → (k ≤ n) ⊎ (k ≡ suc n)
    up_to n k h = elim (Bool-cases (leb k n)) [
      | inl le ↦ inl (ground (arith, le))
      | inr gt ↦ inr (ground (arith, gt, h))
    ]

    match_name-IsLongest : (n : ℕ) → IsLongest n (match_name entry_selector t name n)
    match_name-IsLongest zero = elim (Bool-cases (is_match 0)) [
      | inl here ↦
          rw (match_name_start, here)
            (record {
              hit = λ m e.
                  let is : 0 ≡ m = ground (arith, e) in
                  (
                    omega (arith, is),
                    (rw (← is) here, λ k above below. absurd (omega (arith, is))),
                  );
              miss = λ e. absurd (cc);
            })
      | inr absent ↦
          rw (match_name_start, absent)
            (record {
              hit = λ m e. absurd (cc);
              miss = λ _ k le. let is : k ≡ 0 = omega arith in rw is absent;
            })
    ]
    match_name-IsLongest (suc n) =
        let shorter = match_name-IsLongest n in
        elim (Bool-cases (is_match (suc n))) [
          | inl here ↦
              rw (match_name_step n, here)
                (record {
                  hit = λ m e.
                      let is : suc n ≡ m = ground (arith, e) in
                      (
                        omega (arith, is),
                        (rw (← is) here, λ k above below. absurd (omega (arith, is))),
                      );
                  miss = λ e. absurd (cc);
                })
          | inr absent ↦
              rw (match_name_step n, absent)
                (record {
                  hit = λ m e.
                      let (le, (matches, longest)) = shorter.hit m e in
                      (
                        omega (arith, le),
                        (
                          matches,
                          λ k above below. elim (up_to n k below) [
                            | inl lower ↦ longest k above lower
                            | inr is ↦ rw is absent
                          ],
                        ),
                      );
                  miss = λ e k le. elim (up_to n k le) [
                    | inl lower ↦ shorter.miss e k lower
                    | inr is ↦ rw is absent
                  ];
                })
        ]

    -- The search by name finds the longest prefix of the name that has an entry that is selected.
    pub find_longest_prefix_match-IsLongest :
        IsLongest (length name) (find_longest_prefix_match entry_selector t name)
    unfolding find_longest_prefix_match
    find_longest_prefix_match-IsLongest = match_name-IsLongest (length name)
