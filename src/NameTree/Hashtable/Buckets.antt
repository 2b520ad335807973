-- ===== src/NameTree/Hashtable/Buckets.antt =====
-- Searches in the buckets of the hash table, where each node is in the bucket of its hash.
use mathlib.Core.Path.{subst}
use ndn_share.Base.{
  ℕ, zero, suc, ◌+◌, ◌%◌, ◌<◌, ◌≡◌, ◌≢◌, refl, sym, ap, ◌∙◌, inl, inr, Bool, true, false,
  Bool-cases, Option, none, some, List, [], ◌∷◌, ◌==◌, if◌then◌else◌, length, set, find_if,
  erase_first, length-set, arith,
}
use ndn_share.NameTree.Hashes.{Component, hash_from}
use ndn_share.NameTree.Hashtable.{
  same_name, Node, bucket_at, bucket_index, attach, is_node, find_node,
}

pub same_name_iff : (a b : List Component) → same_name a b ≡ true → a ≡ b
unfolding same_name
same_name_iff [] [] h = refl
same_name_iff [] (d ∷ ds) h = absurd (cc)
same_name_iff (c ∷ cs) [] h = absurd (cc)
same_name_iff (c ∷ cs) (d ∷ ds) h =
    let rest = same_name_iff cs ds (ground (arith, h)) in
    let first : c ≡ d = ground (arith, h) in rw (first, rest) refl

pub same_name_refl : (a : List Component) → same_name a a ≡ true
unfolding same_name
same_name_refl [] = refl
same_name_refl (c ∷ cs) = ground (arith, same_name_refl cs)

module _ (hash : Component → ℕ) where
  abbrev pub full_hash : List Component → ℕ
  full_hash name = hash_from hash 0 name

module _ {A : Type 0} where
  -- An element of the list that has the name.
  abbrev pub named : List Component → Node A → Bool
  named q node = same_name q node.name

  abbrev pub UniqueNames : List (Node A) → Type 0
  UniqueNames [] = Unit
  UniqueNames (x ∷ xs) = (find_if (named x.name) xs ≡ none) × UniqueNames xs

  is_node_hit :
      (h : ℕ) (q : List Component) (node : Node A)
      → node.hash ≡ h
      → same_name q node.name ≡ true
      → is_node h q node ≡ true
  unfolding is_node
  is_node_hit h q node is_hash same = ground (arith, is_hash, same)

  is_node_miss :
      (h : ℕ) (q : List Component) (node : Node A)
      → same_name q node.name ≡ false
      → is_node h q node ≡ false
  unfolding is_node
  is_node_miss h q node differs = ground (arith, differs)

  pub bucket_at-set_self :
      (i : ℕ) (bs : List (List (Node A))) (b : List (Node A))
      → i < length bs
      → bucket_at i (set bs i b) ≡ b
  bucket_at-set_self i [] b h = absurd (omega arith)
  bucket_at-set_self zero (x ∷ xs) b h = refl
  bucket_at-set_self (suc i) (x ∷ xs) b h = bucket_at-set_self i xs b (omega arith)

  pub bucket_at-set_ne :
      (i j : ℕ) (bs : List (List (Node A))) (b : List (Node A))
      → i ≢ j
      → bucket_at j (set bs i b) ≡ bucket_at j bs
  bucket_at-set_ne i j [] b h = refl
  bucket_at-set_ne zero zero (x ∷ xs) b h = absurd (h refl)
  bucket_at-set_ne zero (suc j) (x ∷ xs) b h = refl
  bucket_at-set_ne (suc i) zero (x ∷ xs) b h = refl
  bucket_at-set_ne (suc i) (suc j) (x ∷ xs) b h = bucket_at-set_ne i j xs b (λ e. h (ap suc e))

  pub find_if-erase_none :
      (p q : Node A → Bool) (xs : List (Node A))
      → find_if q xs ≡ none
      → find_if q (erase_first p xs) ≡ none
  find_if-erase_none p q [] h = refl
  find_if-erase_none p q (x ∷ xs) h = ground (arith, find_if-erase_none p q xs)

  module _ (hash : Component → ℕ) where
    -- The nodes of the k-th of n buckets have their names' hashes, which lead there.
    abbrev pub AllHashed : (n k : ℕ) → List (Node A) → Type 0
    AllHashed n k [] = Unit
    AllHashed n k (x ∷ xs) =
        ((x.hash ≡ full_hash hash x.name) × (x.hash % n ≡ k)) × AllHashed n k xs

    abbrev pub IsPlaced : (n k : ℕ) → List (List (Node A)) → Type 0
    IsPlaced n k [] = Unit
    IsPlaced n k (b ∷ bs) = (AllHashed n k b × UniqueNames b) × IsPlaced n (suc k) bs

    abbrev pub search : List Component → List (List (Node A)) → Option (Node A)
    search q bs = find_node (full_hash hash q) q bs

    pub find_if-named :
        (n k : ℕ) (q : List Component) (b : List (Node A))
        → AllHashed n k b
        → find_if (is_node (full_hash hash q) q) b ≡ find_if (named q) b
    unfolding is_node
    find_if-named n k q [] h = refl
    find_if-named n k q (x ∷ xs) h = elim (Bool-cases (same_name q x.name)) [
      | inr differs ↦
          let miss : is_node (full_hash hash q) q x ≡ false = ground (arith, differs) in
          rw (miss, differs) (find_if-named n k q xs h.1)
      | inl same ↦
          let e = same_name_iff q x.name same in
          let is_hash : x.hash ≡ full_hash hash q = h.0.0 ∙ ap (full_hash hash) (sym e) in
          let hit : is_node (full_hash hash q) q x ≡ true = ground (arith, same, is_hash) in
          rw (hit, same) refl
    ]

    bucket_at-IsPlaced :
        (n k i : ℕ) (bs : List (List (Node A)))
        → IsPlaced n k bs
        → AllHashed n (k + i) (bucket_at i bs) × UniqueNames (bucket_at i bs)
    bucket_at-IsPlaced n k i [] p = (tt, tt)
    bucket_at-IsPlaced n k zero (b ∷ bs) p = let e : k + 0 ≡ k = omega arith in rw e p.0
    bucket_at-IsPlaced n k (suc i) (b ∷ bs) p =
        let e : suc k + i ≡ k + suc i = omega arith in
        rw (← e) (bucket_at-IsPlaced n (suc k) i bs p.1)

    set-IsPlaced :
        (n k i : ℕ) (bs : List (List (Node A))) (b : List (Node A))
        → IsPlaced n k bs
        → AllHashed n (k + i) b
        → UniqueNames b
        → IsPlaced n k (set bs i b)
    set-IsPlaced n k i [] b p h u = tt
    set-IsPlaced n k zero (x ∷ xs) b p h u =
        let e : k + 0 ≡ k = omega arith in ((rw (← e) h, u), p.1)
    set-IsPlaced n k (suc i) (x ∷ xs) b p h u =
        let e : suc k + i ≡ k + suc i = omega arith in
        (p.0, set-IsPlaced n (suc k) i xs b p.1 (rw e h) u)

    -- What is attached is found under its name, and nothing else changes.
    pub search-attach :
        (q : List Component) (node : Node A) (bs : List (List (Node A)))
        → length bs ≢ 0
        → node.hash ≡ full_hash hash node.name
        → search q (attach (bucket_index node.hash bs) node bs)
          ≡ (if named q node then some node else search q bs)
    unfolding attach find_node
    search-attach q node bs ne hashed =
        let i = node.hash % length bs in
        let j = full_hash hash q % length bs in
        let bs' = set bs i (node ∷ bucket_at i bs) in
        let in_bucket : i < length bs = omega arith in
        let len : length bs' ≡ length bs = length-set bs i (node ∷ bucket_at i bs) in
        let start : search q bs' ≡ find_if (is_node (full_hash hash q) q) (bucket_at j bs') =
          ap (λ n. find_if (is_node (full_hash hash q) q) (bucket_at (full_hash hash q % n) bs'))
            len in
        elim (Bool-cases (same_name q node.name)) [
          | inl same ↦
              let e = same_name_iff q node.name same in
              let is_hash : node.hash ≡ full_hash hash q = hashed ∙ ap (full_hash hash) (sym e) in
              let there : bucket_at j bs' ≡ node ∷ bucket_at i bs =
                ap (λ h. bucket_at (h % length bs) bs') (sym is_hash)
                ∙ bucket_at-set_self i bs (node ∷ bucket_at i bs) in_bucket in
              let hit : is_node (full_hash hash q) q node ≡ true =
                is_node_hit (full_hash hash q) q node is_hash same in
              start ∙ ap (find_if (is_node (full_hash hash q) q)) there ∙ rw (hit, same) refl
          | inr differs ↦
              let miss : is_node (full_hash hash q) q node ≡ false =
                is_node_miss (full_hash hash q) q node differs in
              elim (Bool-cases (i == j)) [
                | inl same_bucket ↦
                    let ij : i ≡ j = ground arith in
                    let there : bucket_at j bs' ≡ node ∷ bucket_at j bs =
                      rw (← ij) (bucket_at-set_self i bs (node ∷ bucket_at i bs) in_bucket) in
                    start
                    ∙ ap (find_if (is_node (full_hash hash q) q)) there
                    ∙ rw (miss, differs) refl
                | inr other ↦
                    start
                    ∙ ap (find_if (is_node (full_hash hash q) q))
                        (bucket_at-set_ne i j bs (node ∷ bucket_at i bs) (λ e. ground arith))
                    ∙ rw differs refl
              ]
        ]

    pub length-attach :
        (i : ℕ) (node : Node A) (bs : List (List (Node A))) → length (attach i node bs) ≡ length bs
    unfolding attach
    length-attach i node bs = length-set bs i (node ∷ bucket_at i bs)

    pub bucket_of :
        (n i : ℕ) (bs : List (List (Node A)))
        → IsPlaced n 0 bs
        → AllHashed n i (bucket_at i bs) × UniqueNames (bucket_at i bs)
    bucket_of n i bs p =
        let e : 0 + i ≡ i = omega arith in
        let (all, unique) = bucket_at-IsPlaced n 0 i bs p in
        (subst (λ k. AllHashed n k (bucket_at i bs)) e all, unique)

    pub set_bucket-IsPlaced :
        (n i : ℕ) (bs : List (List (Node A))) (b : List (Node A))
        → IsPlaced n 0 bs
        → AllHashed n i b
        → UniqueNames b
        → IsPlaced n 0 (set bs i b)
    set_bucket-IsPlaced n i bs b p all unique =
        let e : i ≡ 0 + i = omega arith in
        set-IsPlaced n 0 i bs b p (subst (λ k. AllHashed n k b) e all) unique

    -- A search is one in the bucket of the name's hash.
    pub search-bucket :
        (n : ℕ) (q : List Component) (bs : List (List (Node A)))
        → length bs ≡ n
        → IsPlaced n 0 bs
        → search q bs ≡ find_if (named q) (bucket_at (full_hash hash q % n) bs)
    unfolding find_node
    search-bucket n q bs len p =
        ap (λ n. find_if (is_node (full_hash hash q) q) (bucket_at (full_hash hash q % n) bs)) len
        ∙ find_if-named n (full_hash hash q % n) q (bucket_at (full_hash hash q % n) bs)
            (bucket_of n (full_hash hash q % n) bs p).0

    pub attach-IsPlaced :
        (n : ℕ) (node : Node A) (bs : List (List (Node A)))
        → length bs ≡ n
        → IsPlaced n 0 bs
        → node.hash ≡ full_hash hash node.name
        → search node.name bs ≡ none
        → IsPlaced n 0 (attach (bucket_index node.hash bs) node bs)
    unfolding attach
    attach-IsPlaced n node bs len p hashed fresh =
        let i = node.hash % n in
        let (all, unique) = bucket_of n i bs p in
        let to_i : full_hash hash node.name % n ≡ i = ap (λ h. h % n) (sym hashed) in
        let alone : find_if (named node.name) (bucket_at i bs) ≡ none =
          ap (λ i. find_if (named node.name) (bucket_at i bs)) (sym to_i)
          ∙ sym (search-bucket n node.name bs len p)
          ∙ fresh in
        rw len (
          set_bucket-IsPlaced n i bs (node ∷ bucket_at i bs) p ((hashed, refl), all)
            (alone, unique))
