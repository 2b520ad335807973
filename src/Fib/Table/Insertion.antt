-- ===== src/Fib/Table/Insertion.antt =====
-- Fib::insert, as an insertion into the map from names to FIB entries.
use ndn_share.Base.{
  ℕ, zero, suc, ◌+◌, ◌%◌, ◌^◌, ◌≡◌, ◌≢◌, refl, ap, sym, ◌∙◌, ◌⊎◌, inl, inr, Bool, true, false,
  Option-cases, Option, none, some, List, [], ◌∷◌, ◌++◌, length, take, arith,
}
use ndn_share.Base.Assoc
use ndn_share.Base.Assoc.{lookup-insert}
use ndn_share.Fib.{NextHop}
use ndn_share.NameTree.Hashes.{Component, names_discrete}
use ndn_share.NameTree.Tree.{
  NteEntry, new_nte, NameTree, find_exact_match, change_nte, set_parent, add_prefix, add_prefixes,
  lookup,
}
use ndn_share.NameTree.Tree.Match.{has, IsClosed}
use ndn_share.NameTree.Tree.Closed.{lookup-IsLookedUp}
use ndn_share.Fib.Table.{Attached, nothing_attached, set_fib_entry, FibTable, find_exact, insert}

take_whole : {A : Type 0} (xs : List A) → take (length xs) xs ≡ xs
take_whole [] = refl
take_whole (x ∷ xs) = ap (◌∷◌ x) (take_whole xs)

unfoldable hops_at : NameTree Attached → List Component → Option (List NextHop)
hops_at t j = elim (find_exact_match t j) [ none ↦ none | some nte ↦ nte.content.fib_entry ]

hops_at-insert :
    (p j : List Component) (t : NameTree Attached)
    → find_exact_match t p ≡ none
    → hops_at (Assoc.insert names_discrete p (new_nte nothing_attached) t) j ≡ hops_at t j
unfolding hops_at find_exact_match
hops_at-insert p j t absent =
    ground (arith, absent, lookup-insert names_discrete p j (new_nte nothing_attached) t)

hops_at-change_nte :
    (f : NteEntry Attached → NteEntry Attached)
    → ((nte : NteEntry Attached) → (f nte).content ≡ nte.content)
    → (p j : List Component) (t : NameTree Attached) → hops_at (change_nte f p t) j ≡ hops_at t j
unfolding hops_at change_nte find_exact_match
hops_at-change_nte f same p j t = elim (Option-cases (find_exact_match t p)) [
  | inl absent ↦ ground (arith, absent)
  | inr (nte, found) ↦ ground (arith, found, same nte, lookup-insert names_discrete p j (f nte) t)
]

hops_at-set_parent :
    (parent child j : List Component) (t : NameTree Attached)
    → hops_at (set_parent parent child t) j ≡ hops_at t j
unfolding set_parent
hops_at-set_parent parent child j t =
    hops_at-change_nte (λ nte. record nte { children = nte.children ++ child ∷ [] }) (λ nte. refl)
      parent j (change_nte (λ nte. record nte { parent = some parent }) child t)
    ∙ hops_at-change_nte (λ nte. record nte { parent = some parent }) (λ nte. refl) child j t

hops_at-add_prefix :
    (name j : List Component) (n : ℕ) (t : NameTree Attached)
    → hops_at (add_prefix nothing_attached name n t) j ≡ hops_at t j
unfolding add_prefix
hops_at-add_prefix name j zero t = elim (Option-cases (find_exact_match t [])) [
  | inr (nte, found) ↦ rw (found, add_prefix) refl
  | inl absent ↦ rw (absent, add_prefix) (hops_at-insert [] j t absent)
]
hops_at-add_prefix name j (suc n) t =
    let p = take (suc n) name in
    elim (Option-cases (find_exact_match t p)) [
      | inr (nte, found) ↦ rw (found, add_prefix) refl
      | inl absent ↦
          rw (absent, add_prefix)
            (hops_at-set_parent (take n name) p j
                (Assoc.insert names_discrete p (new_nte nothing_attached) t)
              ∙ hops_at-insert p j t absent)
    ]

hops_at-add_prefixes :
    (name j : List Component) (n : ℕ) (t : NameTree Attached)
    → hops_at (add_prefixes nothing_attached name n t) j ≡ hops_at t j
unfolding add_prefixes
hops_at-add_prefixes name j zero t = hops_at-add_prefix name j zero t
hops_at-add_prefixes name j (suc n) t =
    hops_at-add_prefix name j (suc n) (add_prefixes nothing_attached name n t)
    ∙ hops_at-add_prefixes name j n t

find_exact-lookup :
    (fib : FibTable) (prefix j : List Component)
    → find_exact (record fib { name_tree = lookup nothing_attached prefix fib.name_tree }) j
      ≡ find_exact fib j
unfolding lookup find_exact hops_at
find_exact-lookup fib prefix j = hops_at-add_prefixes prefix j (length prefix) fib.name_tree

hops_at-set_fib_entry :
    (entry : Option (List NextHop)) (p j : List Component) (t : NameTree Attached)
    → has t p ≡ true
    → (hops_at (change_nte (set_fib_entry entry) p t) p ≡ entry)
      × (j ≢ p → hops_at (change_nte (set_fib_entry entry) p t) j ≡ hops_at t j)
unfolding hops_at change_nte find_exact_match has
hops_at-set_fib_entry entry p j t there = elim (Option-cases (find_exact_match t p)) [
  | inl absent ↦ absurd (ground (arith, absent, there))
  | inr (nte, found) ↦ (
    ground (arith, found, lookup-insert names_discrete p p (set_fib_entry entry nte) t),
    λ ne. ground (arith, ne, found, lookup-insert names_discrete p j (set_fib_entry entry nte) t),
  )
]

-- The hops that the entry of a prefix has once it is inserted.
unfoldable pub hops_or_none : Option (List NextHop) → List NextHop
hops_or_none none = []
hops_or_none (some hops) = hops

pub record IsEntryInserted (fib : FibTable) (prefix : List Component) (fib' : FibTable)
    (is_new : Bool) : Type 0 where
  pub own : find_exact fib' prefix ≡ some (hops_or_none (find_exact fib prefix))
  pub others : (j : List Component) → j ≢ prefix → find_exact fib' j ≡ find_exact fib j
  pub counted :
      ((is_new ≡ true)
        × ((find_exact fib prefix ≡ none) × (fib'.n_items ≡ (fib.n_items + 1) % 2 ^ 64)))
      ⊎ ((is_new ≡ false) × ((find_exact fib prefix ≢ none) × (fib'.n_items ≡ fib.n_items)))

-- In a closed name tree, Fib::insert leaves the entry of the prefix with the hops that it had, or adds
-- one without hops, says which, counts it as a new entry in the second case only, and leaves the
-- entries of other names as they are.
pub insert-IsEntryInserted :
    (fib : FibTable) (prefix : List Component)
    → IsClosed fib.name_tree
    → IsEntryInserted fib prefix (insert fib prefix).0 (insert fib prefix).1
unfolding insert find_exact hops_or_none hops_at
insert-IsEntryInserted fib prefix closed =
    let t = lookup nothing_attached prefix fib.name_tree in
    let grown : FibTable = record fib { name_tree = t } in
    let same = find_exact-lookup fib prefix in
    let whole = lookup-IsLookedUp nothing_attached prefix fib.name_tree closed in
    let there : has t prefix ≡ true =
      ap (has t) (sym (take_whole prefix)) ∙ whole.has_prefixes (length prefix) (omega arith) in
    elim (Option-cases (find_exact grown prefix)) [
      | inr (hops, found) ↦
          let old : find_exact fib prefix ≡ some hops = sym (same prefix) ∙ found in
          rw (found, insert)
            (record {
              own = found ∙ ap (λ h. some (hops_or_none h)) (sym old);
              others = λ j ne. same j;
              counted = inr (refl, (λ e. absurd (cc), refl));
            })
      | inl absent ↦
          let old : find_exact fib prefix ≡ none = sym (same prefix) ∙ absent in
          rw (absent, insert)
            (record {
              own =
                  (hops_at-set_fib_entry (some []) prefix prefix t there).0
                  ∙ ap (λ h. some (hops_or_none h)) (sym old);
              others = λ j ne. (hops_at-set_fib_entry (some []) prefix j t there).1 ne ∙ same j;
              counted = inl (refl, (old, refl));
            })
    ]
