-- ===== src/NameTree/Tree.antt =====
-- table/name-tree.cpp and table/name-tree-entry.cpp, over the map that the hash table implements
-- (NameTree/Hashtable). Entries refer to one another by name; what the tables attach to an entry is a
-- parameter.
pub mod Match
pub mod Closed
pub mod Parents
use ndn_share.Base.{
  ℕ, zero, suc, ◌+◌, Bool, true, false, ◌&&◌, not, Option, none, some, List, [], ◌∷◌, ◌++◌,
  if◌then◌else◌, length, take, erase_first,
}
use ndn_share.Base.Assoc
use ndn_share.NameTree.Hashes.{Component, names_discrete}
use ndn_share.NameTree.Hashtable.{same_name}

pub record NteEntry (E : Type 0) : Type 0 where
  pub parent : Option (List Component)
  pub children : List (List Component)
  pub content : E

abbrev pub new_nte : {E : Type 0} → E → NteEntry E
new_nte content = record { parent = none; children = []; content = content }

abbrev pub NameTree : Type 0 → Type 0
NameTree E = List (List Component × NteEntry E)

module _ {E : Type 0} where
  -- NameTree::findExactMatch
  unfoldable pub find_exact_match : NameTree E → List Component → Option (NteEntry E)
  unfolding Assoc.lookup
  find_exact_match t name = Assoc.lookup names_discrete name t

  unfoldable pub change_nte : (NteEntry E → NteEntry E) → List Component → NameTree E → NameTree E
  unfolding find_exact_match Assoc.insert
  change_nte f name t = elim (find_exact_match t name) [
    | none ↦ t
    | some nte ↦ Assoc.insert names_discrete name (f nte) t
  ]

  -- setParent and unsetParent, of the entry `child`.
  unfoldable pub set_parent : (parent child : List Component) → NameTree E → NameTree E
  unfolding change_nte
  set_parent parent child t =
      change_nte (λ nte. record nte { children = nte.children ++ child ∷ [] }) parent
        (change_nte (λ nte. record nte { parent = some parent }) child t)

  unfoldable pub unset_parent : (parent child : List Component) → NameTree E → NameTree E
  unfolding change_nte same_name
  unset_parent parent child t =
      change_nte (λ nte. record nte { parent = none }) child
        (change_nte (λ nte. record nte { children = erase_first (same_name child) nte.children })
          parent t)

  -- A round of the loop of lookup; `empty` is an entry to which no table has attached anything.
  unfoldable pub add_prefix :
      (empty : E) → List Component → (prefix_len : ℕ) → NameTree E → NameTree E
  unfolding find_exact_match Assoc.insert set_parent
  add_prefix empty name zero t = elim (find_exact_match t []) [
    | some nte ↦ t
    | none ↦ Assoc.insert names_discrete [] (new_nte empty) t
  ]
  add_prefix empty name (suc n) t = elim (find_exact_match t (take (suc n) name)) [
    | some nte ↦ t
    | none ↦
        set_parent (take n name) (take (suc n) name)
          (Assoc.insert names_discrete (take (suc n) name) (new_nte empty) t)
  ]

  unfoldable pub add_prefixes :
      (empty : E) → List Component → (prefix_len : ℕ) → NameTree E → NameTree E
  unfolding add_prefix
  add_prefixes empty name zero t = add_prefix empty name zero t
  add_prefixes empty name (suc n) t = add_prefix empty name (suc n) (add_prefixes empty name n t)

  unfoldable pub lookup : (empty : E) → List Component → NameTree E → NameTree E
  unfolding add_prefixes
  lookup empty name t = add_prefixes empty name (length name) t

  module _ (has_table_entries : E → Bool) where
    unfoldable pub is_empty : NteEntry E → Bool
    is_empty nte =
        elim nte.children [ [] ↦ true | child ∷ rest ↦ false ]
        && not (has_table_entries nte.content)

    -- The loop of eraseIfEmpty, from the entry of a name on: the tree, and how many were erased. As
    -- the name of a parent is shorter, fuel for one round more than the length of the name is enough.
    unfoldable pub erase_if_empty :
        (can_erase_ancestors : Bool) → (fuel : ℕ) → List Component → NameTree E → NameTree E × ℕ
    unfolding find_exact_match is_empty unset_parent Assoc.remove
    erase_if_empty can_erase_ancestors zero name t = (t, 0)
    erase_if_empty can_erase_ancestors (suc fuel) name t = elim (find_exact_match t name) [
      | none ↦ (t, 0)
      | some nte ↦ elim (is_empty nte) [
        | false ↦ (t, 0)
        | true ↦ elim nte.parent [
          | none ↦ (Assoc.remove names_discrete name t, 1)
          | some parent ↦
              let erased = Assoc.remove names_discrete name (unset_parent parent name t) in
              let (rest, n_erased) = erase_if_empty can_erase_ancestors fuel parent erased in
              if can_erase_ancestors then (rest, n_erased + 1) else (erased, 1)
        ]
      ]
    ]

  module _ (entry_selector : E → Bool) (t : NameTree E) (name : List Component) where
    -- The loop of findLongestPrefixMatch by name, from a prefix length down: the length that matches.
    unfoldable pub match_name : (prefix_len : ℕ) → Option ℕ
    unfolding find_exact_match
    match_name zero = elim (find_exact_match t []) [
      | none ↦ none
      | some nte ↦ if entry_selector nte.content then some 0 else none
    ]
    match_name (suc n) =
        let rest = match_name n in
        elim (find_exact_match t (take (suc n) name)) [
          | none ↦ rest
          | some nte ↦ if entry_selector nte.content then some (suc n) else rest
        ]

    unfoldable pub find_longest_prefix_match : Option ℕ
    unfolding match_name
    find_longest_prefix_match = match_name (length name)

  module _ (entry_selector : E → Bool) (t : NameTree E) where
    -- The loop of findLongestPrefixMatch from an entry, over its parents: the name of the entry that
    -- matches. Fuel as for eraseIfEmpty.
    unfoldable pub match_parents : (fuel : ℕ) → List Component → Option (List Component)
    unfolding find_exact_match
    match_parents zero name = none
    match_parents (suc fuel) name = elim (find_exact_match t name) [
      | none ↦ none
      | some nte ↦ elim (entry_selector nte.content) [
        | true ↦ some name
        | false ↦ elim nte.parent [ none ↦ none | some parent ↦ match_parents fuel parent ]
      ]
    ]
