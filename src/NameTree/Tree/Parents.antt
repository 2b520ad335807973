-- ===== src/NameTree/Tree/Parents.antt =====
-- The parents of name tree entries, and the longest prefix match over them.
use ndn_share.Base.{
  ℕ, zero, suc, ◌≤◌, ◌<◌, ◌≡◌, ◌≢◌, refl, sym, ap, ◌∙◌, inl, inr, Bool, true, Bool-cases,
  Option-cases, Option, none, some, List, [], ◌∷◌, ◌++◌, length, length-take, take, arith,
}
use ndn_share.Base.Assoc
use ndn_share.Base.Assoc.{lookup-insert}
use ndn_share.NameTree.Hashes.{Component, names_discrete}
use ndn_share.NameTree.Tree.{
  NteEntry, new_nte, NameTree, find_exact_match, change_nte, set_parent, add_prefix, add_prefixes,
  lookup, match_name, match_parents,
}
use ndn_share.NameTree.Tree.Match.{has, IsClosed}
use ndn_share.NameTree.Tree.Closed.{take-take}

-- Prefixes that are equal, and not cut short, are of the same length, and so are their parents.
take_parent :
    {A : Type 0} (k n : ℕ) (q name : List A)
    → suc k ≤ length q
    → suc n ≤ length name
    → take (suc k) q ≡ take (suc n) name
    → take k q ≡ take n name
take_parent k n q name a b e =
    let same : k ≡ n =
      omega (arith, a, b, length-take (suc k) q, length-take (suc n) name, ap length e) in
    sym (take-take k q)
    ∙ ap (take k) e
    ∙ ap (λ k. take k (take (suc n) name)) same
    ∙ take-take n name

take_not_empty : {A : Type 0} (k : ℕ) (q : List A) → suc k ≤ length q → take (suc k) q ≢ []
take_not_empty k [] h e = omega arith
take_not_empty k (x ∷ q) h e = cc

-- The prefix of a length.
abbrev pub prefix_of : List Component → Option ℕ → Option (List Component)
prefix_of name none = none
prefix_of name (some k) = some (take k name)

module _ {E : Type 0} where
  -- The parent of an entry, if there is the entry.
  unfoldable pub parent_at : NameTree E → List Component → Option (Option (List Component))
  parent_at t j = elim (find_exact_match t j) [ none ↦ none | some nte ↦ some nte.parent ]

  parent_at-change_nte :
      (f : NteEntry E → NteEntry E)
      → ((nte : NteEntry E) → (f nte).parent ≡ nte.parent)
      → (p j : List Component) (t : NameTree E) → parent_at (change_nte f p t) j ≡ parent_at t j
  unfolding parent_at change_nte find_exact_match
  parent_at-change_nte f same p j t = elim (Option-cases (find_exact_match t p)) [
    | inl absent ↦ ground (arith, absent)
    | inr (nte, found) ↦ ground (arith, found, same nte, lookup-insert names_discrete p j (f nte) t)
  ]

  -- A new entry of which the parent is set has it, and others have the parents that they had.
  parent_at-new :
      (empty : E) (parent p j : List Component) (x : Option (List Component)) (t : NameTree E)
      → parent_at (set_parent parent p (Assoc.insert names_discrete p (new_nte empty) t)) j ≡ some x
      → (p ≡ j → x ≡ some parent) × (p ≢ j → parent_at t j ≡ some x)
  unfolding parent_at set_parent change_nte find_exact_match
  parent_at-new empty parent p j x t h =
      let inserted = Assoc.insert names_discrete p (new_nte empty) t in
      let linked : NteEntry E = record (new_nte empty) { parent = some parent } in
      let kept =
        parent_at-change_nte (λ nte. record nte { children = nte.children ++ p ∷ [] }) (λ nte. refl)
          parent j (change_nte (λ nte. record nte { parent = some parent }) p inserted) in
      (
        λ same. ground (
          arith,
          same,
          h,
          kept,
          lookup-insert names_discrete p p (new_nte empty) t,
          lookup-insert names_discrete p j linked inserted,
        ),
        λ differs. ground (
          arith,
          differs,
          h,
          kept,
          lookup-insert names_discrete p p (new_nte empty) t,
          lookup-insert names_discrete p j (new_nte empty) t,
          lookup-insert names_discrete p j linked inserted,
        ),
      )

  -- The root has no parent, and the parent of every other entry is the one component shorter.
  pub record IsLinked (t : NameTree E) : Type 0 where
    pub root_parent : (x : Option (List Component)) → parent_at t [] ≡ some x → x ≡ none
    pub own_parent :
        (q : List Component) (k : ℕ) (x : Option (List Component))
        → suc k ≤ length q
        → parent_at t (take (suc k) q) ≡ some x
        → x ≡ some (take k q)

  parent_at-root :
      (empty : E) (j : List Component) (x : Option (List Component)) (t : NameTree E)
      → parent_at (Assoc.insert names_discrete [] (new_nte empty) t) j ≡ some x
      → ([] ≡ j → x ≡ none) × ([] ≢ j → parent_at t j ≡ some x)
  unfolding parent_at find_exact_match
  parent_at-root empty j x t h = (
    λ same. ground (arith, same, h, lookup-insert names_discrete [] j (new_nte empty) t),
    λ differs. ground (arith, differs, h, lookup-insert names_discrete [] j (new_nte empty) t),
  )

  add_prefix-IsLinked :
      (empty : E) (name : List Component) (n : ℕ) (t : NameTree E)
      → n ≤ length name
      → IsLinked t
      → IsLinked (add_prefix empty name n t)
  unfolding add_prefix
  add_prefix-IsLinked empty name zero t within v = elim (Option-cases (find_exact_match t [])) [
    | inr (nte, found) ↦ rw (found, add_prefix) v
    | inl absent ↦
        rw (absent, add_prefix)
          (record {
            root_parent = λ x h. (parent_at-root empty [] x t h).0 refl;
            own_parent = λ q k x longer h. v.own_parent q k x longer (
                (parent_at-root empty (take (suc k) q) x t h).1
                  (λ e. take_not_empty k q longer (sym e)));
          })
  ]
  add_prefix-IsLinked empty name (suc n) t within v =
      let p = take (suc n) name in
      elim (Option-cases (find_exact_match t p)) [
        | inr (nte, found) ↦ rw (found, add_prefix) v
        | inl absent ↦
            rw (absent, add_prefix)
              (record {
                root_parent = λ x h. v.root_parent x (
                    (parent_at-new empty (take n name) p [] x t h).1
                      (take_not_empty n name within));
                own_parent = λ q k x longer h.
                    let (same, other) =
                      parent_at-new empty (take n name) p (take (suc k) q) x t h in
                    elim (names_discrete p (take (suc k) q)) [
                      | yes is ↦
                          same is ∙ ap some (sym (take_parent k n q name longer within (sym is)))
                      | no differs ↦ v.own_parent q k x longer (other differs)
                    ];
              })
      ]

  add_prefixes-IsLinked :
      (empty : E) (name : List Component) (n : ℕ) (t : NameTree E)
      → n ≤ length name
      → IsLinked t
      → IsLinked (add_prefixes empty name n t)
  unfolding add_prefixes
  add_prefixes-IsLinked empty name zero t within v = add_prefix-IsLinked empty name 0 t within v
  add_prefixes-IsLinked empty name (suc n) t within v =
      add_prefix-IsLinked empty name (suc n) (add_prefixes empty name n t) within
        (add_prefixes-IsLinked empty name n t (omega (arith, within)) v)

  -- lookup leaves a tree in which the root has no parent, and the parent of every other entry is that
  -- of the name one component shorter, such a tree.
  pub lookup-IsLinked :
      (empty : E) (name : List Component) (t : NameTree E)
      → IsLinked t
      → IsLinked (lookup empty name t)
  unfolding lookup
  lookup-IsLinked empty name t v = add_prefixes-IsLinked empty name (length name) t (omega arith) v

  module _ (entry_selector : E → Bool) (t : NameTree E) (name : List Component) where
    -- In a closed tree in which every entry is linked to its parent, going up from the entry of a
    -- prefix over the parents finds, with fuel for one round more than its length, the entry that the
    -- search by name does.
    pub match_parents-match_name :
        (fuel n : ℕ)
        → n < fuel
        → n ≤ length name
        → IsLinked t
        → IsClosed t
        → has t (take n name) ≡ true
        → match_parents entry_selector t fuel (take n name)
          ≡ prefix_of name (match_name entry_selector t name n)
    unfolding match_parents match_name has parent_at
    match_parents-match_name zero n enough within v closed is_in = absurd (omega arith)
    match_parents-match_name (suc fuel) zero enough within v closed is_in =
        elim (Option-cases (find_exact_match t [])) [
          | inl absent ↦ absurd (ground (arith, is_in, absent))
          | inr (nte, found) ↦
              let top : nte.parent ≡ none = v.root_parent nte.parent (rw (found, parent_at) refl) in
              elim (Bool-cases (entry_selector nte.content)) [
                | inl here ↦ rw (found, match_parents, match_name, here) refl
                | inr not_here ↦ rw (found, match_parents, match_name, not_here, top) refl
              ]
        ]
    match_parents-match_name (suc fuel) (suc n) enough within v closed is_in =
        let rest =
          match_parents-match_name fuel n (omega (arith, enough)) (omega (arith, within)) v closed
            (closed name n is_in) in
        elim (Option-cases (find_exact_match t (take (suc n) name))) [
          | inl absent ↦ absurd (ground (arith, is_in, absent))
          | inr (nte, found) ↦
              let up : nte.parent ≡ some (take n name) =
                v.own_parent name n nte.parent within (rw (found, parent_at) refl) in
              elim (Bool-cases (entry_selector nte.content)) [
                | inl here ↦ rw (found, match_parents, match_name, here) refl
                | inr not_here ↦ rw (found, match_parents, match_name, not_here, up) rest
              ]
        ]
