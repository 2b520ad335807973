-- ===== src/Fib/Table/Items.antt =====
-- What the FIB finds, and how it counts its entries.
use ndn_share.Base.{
  ℕ, ◌≤◌, ◌<◌, ◌≡◌, ◌≢◌, inl, inr, true, false, Option-cases, Option, none, some, List, length,
  take, arith,
}
use ndn_share.Fib.{NextHop}
use ndn_share.NameTree.Hashes.{Component}
use ndn_share.NameTree.Tree.{find_longest_prefix_match}
use ndn_share.NameTree.Tree.Match.{is_match, find_longest_prefix_match-IsLongest}
use ndn_share.Fib.Table.{nte_has_fib_entry, FibTable, find_exact, find_longest}

-- The FIB entry of the longest prefix of the name that has one, if any has.
pub record IsLongestEntry (fib : FibTable) (name : List Component) (result : Option (List NextHop))
    : Type 0 where
  pub hit :
      (hops : List NextHop)
      → result ≡ some hops
      → (n : ℕ) × ((n ≤ length name)
          × ((find_exact fib (take n name) ≡ some hops)
              × ((k : ℕ) → n < k → k ≤ length name → find_exact fib (take k name) ≡ none)))
  pub miss : result ≡ none → (k : ℕ) → k ≤ length name → find_exact fib (take k name) ≡ none

is_match-none :
    (fib : FibTable) (name : List Component) (k : ℕ)
    → is_match nte_has_fib_entry fib.name_tree name k ≡ false
    → find_exact fib (take k name) ≡ none
unfolding is_match find_exact
is_match-none fib name k h = ground (arith, h)

is_match-some :
    (fib : FibTable) (name : List Component) (k : ℕ)
    → is_match nte_has_fib_entry fib.name_tree name k ≡ true
    → find_exact fib (take k name) ≢ none
unfolding is_match find_exact
is_match-some fib name k h e = ground (arith, h, e)

-- findLongestPrefixMatch gives the FIB entry of the longest prefix of the name that has one, and no
-- entry of the table only where no prefix of the name has one.
pub find_longest-IsLongestEntry :
    (fib : FibTable) (name : List Component) → IsLongestEntry fib name (find_longest fib name)
unfolding find_longest
find_longest-IsLongestEntry fib name =
    let longest = find_longest_prefix_match-IsLongest nte_has_fib_entry fib.name_tree name in
    elim (Option-cases (find_longest_prefix_match nte_has_fib_entry fib.name_tree name)) [
      | inl absent ↦
          rw (absent, find_longest)
            (record {
              hit = λ hops e. absurd (cc);
              miss = λ _ k le. is_match-none fib name k (longest.miss absent k le);
            })
      | inr (n, found) ↦
          let (le, (matches, none_longer)) = longest.hit n found in
          rw (found, find_longest)
            (record {
              hit = λ hops e. (
                n,
                (le, (e, λ k above below. is_match-none fib name k (none_longer k above below))),
              );
              miss = λ e. absurd (is_match-some fib name n matches e);
            })
    ]
