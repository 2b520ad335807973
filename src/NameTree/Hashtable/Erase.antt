-- ===== src/NameTree/Hashtable/Erase.antt =====
-- An erasure from the hash table removes the one name.
use ndn_share.Base.{
  ℕ, ◌-◌, ◌%◌, ◌≡◌, ◌≢◌, ◌<◌, refl, sym, ap, ◌∙◌, inl, inr, Bool, false, Bool-cases, none, some,
  List, [], ◌∷◌, ltb, max, ◌==◌, if◌then◌else◌, length, length-set, set, find_if, erase_first,
  arith,
}
use ndn_share.Base.Search.{find_if-erase_first_other}
use ndn_share.Base.Positions.{find_if-position}
use ndn_share.NameTree.Hashes.{Component}
use ndn_share.NameTree.Hashtable.{
  same_name, Node, Hashtable, HashtableOptions, bucket_at, bucket_index, detach, is_node, find_node,
  erase,
}
use ndn_share.NameTree.Hashtable.Buckets.{
  same_name_iff, same_name_refl, named, full_hash, UniqueNames, AllHashed, IsPlaced, search,
  search-bucket, bucket_of, set_bucket-IsPlaced, bucket_at-set_self, bucket_at-set_ne,
  find_if-erase_none,
}
use ndn_share.NameTree.Hashtable.Resize.{IsValid}
use ndn_share.NameTree.Hashtable.Map.{IsUpdate, resize-IsUpdate}

same_name_sym : (a b : List Component) → same_name a b ≡ same_name b a
same_name_sym a b = elim (Bool-cases (same_name a b)) [
  | inl same ↦ let e = same_name_iff a b same in rw e refl
  | inr differs ↦ elim (Bool-cases (same_name b a)) [
    | inr differs' ↦ differs ∙ sym differs'
    | inl same ↦
        let e = same_name_iff b a same in absurd (ground (arith, differs, same_name_refl a, e))
  ]
]

module _ {A : Type 0} where
  abbrev has_name : List Component → Node A → Bool
  has_name name node = same_name node.name name

  find_if-erase_self :
      (name : List Component) (xs : List (Node A))
      → UniqueNames xs
      → find_if (named name) (erase_first (has_name name) xs) ≡ none
  find_if-erase_self name [] u = refl
  find_if-erase_self name (x ∷ xs) u = elim (Bool-cases (same_name x.name name)) [
    | inl same ↦ let e = same_name_iff x.name name same in rw same (rw (← e) u.0)
    | inr differs ↦
        let differs' : same_name name x.name ≡ false = same_name_sym name x.name ∙ differs in
        rw (differs, differs') (find_if-erase_self name xs u.1)
  ]

  erase_first-UniqueNames :
      (name : List Component) (xs : List (Node A))
      → UniqueNames xs
      → UniqueNames (erase_first (has_name name) xs)
  erase_first-UniqueNames name [] u = tt
  erase_first-UniqueNames name (x ∷ xs) u = elim (Bool-cases (same_name x.name name)) [
    | inl same ↦ rw same u.1
    | inr differs ↦ rw differs (
      find_if-erase_none (has_name name) (named x.name) xs u.0,
      erase_first-UniqueNames name xs u.1,
    )
  ]

  module _ (hash : Component → ℕ) where
    erase_first-AllHashed :
        (n k : ℕ) (name : List Component) (xs : List (Node A))
        → AllHashed hash n k xs
        → AllHashed hash n k (erase_first (has_name name) xs)
    erase_first-AllHashed n k name [] h = tt
    erase_first-AllHashed n k name (x ∷ xs) h = elim (Bool-cases (same_name x.name name)) [
      | inl same ↦ rw same h.1
      | inr differs ↦ rw differs (h.0, erase_first-AllHashed n k name xs h.1)
    ]

    detach-IsPlaced :
        (n i : ℕ) (name : List Component) (bs : List (List (Node A)))
        → IsPlaced hash n 0 bs
        → IsPlaced hash n 0 (detach i name bs)
    unfolding detach
    detach-IsPlaced n i name bs p =
        let (all, unique) = bucket_of hash n i bs p in
        set_bucket-IsPlaced hash n i bs (erase_first (has_name name) (bucket_at i bs)) p
          (erase_first-AllHashed n i name (bucket_at i bs) all)
          (erase_first-UniqueNames name (bucket_at i bs) unique)

    length-detach :
        (i : ℕ) (name : List Component) (bs : List (List (Node A)))
        → length (detach i name bs) ≡ length bs
    unfolding detach
    length-detach i name bs = length-set bs i (erase_first (has_name name) (bucket_at i bs))

    search-detach :
        (n : ℕ) (name q : List Component) (bs : List (List (Node A)))
        → length bs ≡ n
        → n ≢ 0
        → IsPlaced hash n 0 bs
        → search hash q (detach (full_hash hash name % n) name bs)
          ≡ (if same_name q name then none else search hash q bs)
    unfolding detach
    search-detach n name q bs len ne p =
        let i = full_hash hash name % n in
        let j = full_hash hash q % n in
        let erased = erase_first (has_name name) (bucket_at i bs) in
        let in_bucket : i < length bs = omega (arith, len) in
        let searched =
          search-bucket hash n q (set bs i erased) (length-set bs i erased ∙ len)
            (detach-IsPlaced n i name bs p) in
        elim (Bool-cases (same_name q name)) [
          | inl same ↦
              let e = same_name_iff q name same in
              searched
              ∙ ap (λ q. find_if (named q) (bucket_at (full_hash hash q % n) (set bs i erased))) e
              ∙ ap (find_if (named name)) (bucket_at-set_self i bs erased in_bucket)
              ∙ find_if-erase_self name (bucket_at i bs) (bucket_of hash n i bs p).1
              ∙ rw same refl
          | inr differs ↦
              let same_bucket : find_if (named q) (bucket_at j (set bs i erased))
                  ≡ find_if (named q) (bucket_at j bs) =
                elim (Bool-cases (i == j)) [
                  | inl is ↦
                      let ij : i ≡ j = ground arith in
                      rw (← ij) (
                        ap (find_if (named q)) (bucket_at-set_self i bs erased in_bucket)
                        ∙ find_if-erase_first_other (has_name name) (named q) (bucket_at i bs)
                            (λ x has. let e = same_name_iff x.name name has in rw e differs))
                  | inr other ↦
                      ap (find_if (named q)) (bucket_at-set_ne i j bs erased (λ e. ground arith))
                ] in
              searched ∙ same_bucket ∙ sym (search-bucket hash n q bs len p) ∙ rw differs refl
        ]

    module _ (options : HashtableOptions) where
      -- An erasure of a node that the table has under its name, from a valid table that keeps at least
      -- one bucket, leaves it valid, with nothing under that name and under others what it had.
      pub erase-IsUpdate :
          (ht : Hashtable A) (node : Node A)
          → IsValid hash ht.buckets
          → options.min_size ≢ 0
          → search hash node.name ht.buckets ≡ some node
          → IsValid hash (erase hash options ht node).buckets
            × IsUpdate hash ht node.name none (erase hash options ht node)
      unfolding erase find_node is_node
      erase-IsUpdate ht node v ne found =
          let n = length ht.buckets in
          let passes =
            (find_if-position _ (bucket_at (full_hash hash node.name % n) ht.buckets) node
              found).0 in
          let hashed : node.hash ≡ full_hash hash node.name = ground (arith, passes) in
          let detached : Hashtable A = record {
            buckets = detach (bucket_index node.hash ht.buckets) node.name ht.buckets;
            size = ht.size - 1;
          } in
          let update : IsUpdate hash ht node.name none detached = λ q.
            ap (λ h. search hash q (detach (h % n) node.name ht.buckets)) hashed
            ∙ search-detach n node.name q ht.buckets refl v.not_empty v.is_placed in
          let len = length-detach (bucket_index node.hash ht.buckets) node.name ht.buckets in
          let placed = detach-IsPlaced n (node.hash % n) node.name ht.buckets v.is_placed in
          resize-IsUpdate hash ht detached node.name none
            (ltb (ht.size - 1) (options.shrink_threshold n))
            (max options.min_size (options.shrunk n)) (omega arith)
            (record { not_empty = rw len v.not_empty; is_placed = rw len placed }) update
