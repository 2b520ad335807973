-- ===== src/NameTree/Tree/Closed.antt =====
-- NameTree::lookup adds the entries of all prefixes of a name, and keeps the tree closed.
use ndn_share.Base.{
  some, ℕ, zero, suc, ◌≤◌, ◌≡◌, refl, sym, ap, ◌∙◌, ◌⊎◌, inl, inr, true, Bool-cases, Option-cases,
  List, [], ◌∷◌, ◌++◌, leb, length, length-take, take, arith,
}
use ndn_share.Base.Assoc
use ndn_share.Base.Assoc.{lookup-insert}
use ndn_share.NameTree.Hashes.{Component, names_discrete}
use ndn_share.NameTree.Tree.{
  NteEntry, new_nte, NameTree, find_exact_match, change_nte, set_parent, add_prefix, add_prefixes,
  lookup,
}
use ndn_share.NameTree.Tree.Match.{has, IsClosed}

pub take-take : {A : Type 0} (k : ℕ) (xs : List A) → take k (take (suc k) xs) ≡ take k xs
take-take zero xs = refl
take-take (suc k) [] = refl
take-take (suc k) (x ∷ xs) = ap (◌∷◌ x) (take-take k xs)

take_all : {A : Type 0} (k : ℕ) (xs : List A) → length xs ≤ k → take (suc k) xs ≡ take k xs
take_all zero [] h = refl
take_all zero (x ∷ xs) h = absurd (omega arith)
take_all (suc k) [] h = refl
take_all (suc k) (x ∷ xs) h = ap (◌∷◌ x) (take_all k xs (omega arith))

-- Prefixes of different names that are equal are of the same length, and so are theirs.
take_step :
    {A : Type 0} (k n : ℕ) (q name : List A)
    → suc n ≤ length name
    → take (suc k) q ≡ take (suc n) name
    → (take k q ≡ take (suc n) name) ⊎ (take k q ≡ take n name)
take_step k n q name within e = elim (Bool-cases (leb (length q) k)) [
  | inl short ↦ inl (sym (take_all k q (ground (arith, short))) ∙ e)
  | inr long ↦
      let same : k ≡ n =
        ground
          (arith, long, within, length-take (suc k) q, length-take (suc n) name, ap length e) in
      inr (
        sym (take-take k q)
        ∙ ap (take k) e
        ∙ ap (λ k. take k (take (suc n) name)) same
        ∙ take-take n name)
]

take_empty : {A : Type 0} (k : ℕ) (q : List A) → take (suc k) q ≡ [] → take k q ≡ []
take_empty zero q e = refl
take_empty (suc k) [] e = refl
take_empty (suc k) (x ∷ q) e = absurd (cc)

module _ {E : Type 0} where
  has-insert :
      (k j : List Component) (nte : NteEntry E) (t : NameTree E)
      → (has (Assoc.insert names_discrete k nte t) k ≡ true)
        × ((has t j ≡ true → has (Assoc.insert names_discrete k nte t) j ≡ true)
            × (has (Assoc.insert names_discrete k nte t) j ≡ true → (has t j ≡ true) ⊎ (j ≡ k)))
  unfolding has find_exact_match
  has-insert k j nte t = (
    ground (arith, lookup-insert names_discrete k k nte t),
    (
      λ h. ground (arith, lookup-insert names_discrete k j nte t, h),
      λ h. ground (arith, lookup-insert names_discrete k j nte t, h),
    ),
  )

  has-change_nte :
      (f : NteEntry E → NteEntry E) (name j : List Component) (t : NameTree E)
      → has (change_nte f name t) j ≡ has t j
  unfolding change_nte has find_exact_match
  has-change_nte f name j t = elim (Option-cases (find_exact_match t name)) [
    | inl absent ↦ ground (arith, absent)
    | inr (nte, found) ↦ ground (arith, found, lookup-insert names_discrete name j (f nte) t)
  ]

  has-set_parent :
      (parent child j : List Component) (t : NameTree E)
      → has (set_parent parent child t) j ≡ has t j
  unfolding set_parent
  has-set_parent parent child j t =
      has-change_nte (λ nte. record nte { children = nte.children ++ child ∷ [] }) parent j
        (change_nte (λ nte. record nte { parent = some parent }) child t)
      ∙ has-change_nte (λ nte. record nte { parent = some parent }) child j t

  -- A step of lookup adds the one prefix.
  pub record IsAdded (t : NameTree E) (name : List Component) (t' : NameTree E) : Type 0 where
    pub is_there : has t' name ≡ true
    pub keeps : (j : List Component) → has t j ≡ true → has t' j ≡ true
    pub adds_one : (j : List Component) → has t' j ≡ true → (has t j ≡ true) ⊎ (j ≡ name)

  add_prefix-IsAdded :
      (empty : E) (name : List Component) (n : ℕ) (t : NameTree E)
      → IsAdded t (take n name) (add_prefix empty name n t)
  unfolding add_prefix set_parent has
  add_prefix-IsAdded empty name zero t = elim (Option-cases (find_exact_match t [])) [
    | inr (nte, found) ↦
        rw (found, add_prefix)
          (record { is_there = rw (found, has) refl; keeps = λ j h. h; adds_one = λ j h. inl h })
    | inl absent ↦
        let new : NteEntry E = new_nte empty in
        rw (absent, add_prefix)
          (record {
            is_there = (has-insert [] [] new t).0;
            keeps = λ j. (has-insert [] j new t).1.0;
            adds_one = λ j. (has-insert [] j new t).1.1;
          })
  ]
  add_prefix-IsAdded empty name (suc n) t =
      let p = take (suc n) name in
      elim (Option-cases (find_exact_match t p)) [
        | inr (nte, found) ↦
            rw (found, add_prefix)
              (record {
                is_there = rw (found, has) refl;
                keeps = λ j h. h;
                adds_one = λ j h. inl h;
              })
        | inl absent ↦
            let new : NteEntry E = new_nte empty in
            let inserted = Assoc.insert names_discrete p new t in
            let same = λ (j : List Component). has-set_parent (take n name) p j inserted in
            rw (absent, add_prefix)
              (record {
                is_there = same p ∙ (has-insert p p new t).0;
                keeps = λ j h. same j ∙ (has-insert p j new t).1.0 h;
                adds_one = λ j h. (has-insert p j new t).1.1 (sym (same j) ∙ h);
              })
      ]

  add_prefixes-IsClosed :
      (empty : E) (name : List Component) (n : ℕ) (t : NameTree E)
      → n ≤ length name
      → IsClosed t
      → IsClosed (add_prefixes empty name n t)
        × ((has (add_prefixes empty name n t) (take n name) ≡ true)
            × ((j : List Component) → has t j ≡ true → has (add_prefixes empty name n t) j ≡ true))
  unfolding add_prefixes
  add_prefixes-IsClosed empty name zero t within closed =
      let a = add_prefix-IsAdded empty name 0 t in
      (
        λ q k h. elim (a.adds_one (take (suc k) q) h) [
          | inl old ↦ a.keeps (take k q) (closed q k old)
          | inr is ↦ rw (take_empty k q is) a.is_there
        ],
        (a.is_there, a.keeps),
      )
  add_prefixes-IsClosed empty name (suc n) t within closed =
      let (closed', (there, kept)) =
        add_prefixes-IsClosed empty name n t (omega (arith, within)) closed in
      let t' = add_prefixes empty name n t in
      let a = add_prefix-IsAdded empty name (suc n) t' in
      (
        λ q k h. elim (a.adds_one (take (suc k) q) h) [
          | inl old ↦ a.keeps (take k q) (closed' q k old)
          | inr is ↦ elim (take_step k n q name within is) [
            | inl whole ↦ rw whole a.is_there
            | inr parent ↦ rw parent (a.keeps (take n name) there)
          ]
        ],
        (a.is_there, λ j h. a.keeps j (kept j h)),
      )

  prefix_there :
      (empty : E) (name : List Component) (n k : ℕ) (t : NameTree E)
      → n ≤ length name
      → k ≤ n
      → IsClosed t
      → has (add_prefixes empty name n t) (take k name) ≡ true
  unfolding add_prefixes
  prefix_there empty name zero k t within le closed =
      let (closed', (there, kept)) = add_prefixes-IsClosed empty name 0 t within closed in
      let is : k ≡ 0 = omega arith in rw is there
  prefix_there empty name (suc n) k t within le closed = elim (Bool-cases (leb k n)) [
    | inl lower ↦
        (add_prefix-IsAdded empty name (suc n) (add_prefixes empty name n t)).keeps (take k name)
          (prefix_there empty name n k t (omega (arith, within)) (ground (arith, lower)) closed)
    | inr upper ↦
        let is : k ≡ suc n = ground (arith, upper) in
        rw is (add_prefixes-IsClosed empty name (suc n) t within closed).1.0
  ]

  -- What lookup makes of a closed tree: it is closed, has all prefixes of the name, and what it had.
  pub record IsLookedUp (t : NameTree E) (name : List Component) (t' : NameTree E) : Type 0 where
    pub is_closed : IsClosed t'
    pub has_prefixes : (k : ℕ) → k ≤ length name → has t' (take k name) ≡ true
    pub keeps : (j : List Component) → has t j ≡ true → has t' j ≡ true

  -- lookup leaves a closed tree closed, with entries for all prefixes of the name and those that it
  -- had.
  pub lookup-IsLookedUp :
      (empty : E) (name : List Component) (t : NameTree E)
      → IsClosed t
      → IsLookedUp t name (lookup empty name t)
  unfolding lookup
  lookup-IsLookedUp empty name t closed =
      let (closed', (there, kept)) =
        add_prefixes-IsClosed empty name (length name) t (omega arith) closed in
      record {
        is_closed = closed';
        has_prefixes = λ k le. prefix_there empty name (length name) k t (omega arith) le closed;
        keeps = kept;
      }
