-- ===== src/NameTree/Hashtable/Resize.antt =====
-- A resize of the hash table leaves every search as it was.
use ndn_share.Base.{
  ℕ, zero, suc, ◌+◌, ◌%◌, ◌≡◌, ◌<◌, ◌≢◌, refl, sym, ap, ◌∙◌, inl, inr, false, Bool-cases, Option,
  none, some, List, [], ◌∷◌, ◌++◌, ◌==◌, if◌then◌else◌, length, length-replicate, replicate,
  find_if, arith,
}
use ndn_share.NameTree.Hashes.{Component}
use ndn_share.NameTree.Hashtable.{
  same_name, Node, Hashtable, bucket_at, bucket_index, attach, attach_nodes, attach_buckets, resize,
  is_node, find_node,
}
use ndn_share.NameTree.Hashtable.Buckets.{
  same_name_iff, same_name_refl, named, full_hash, UniqueNames, AllHashed, IsPlaced, search,
  search-attach, length-attach, search-bucket, attach-IsPlaced,
}

-- The one, or else the other.
abbrev pub or_else {ℓ} : {B : Type ℓ} → Option B → Option B → Option B
or_else none b = b
or_else (some a) b = some a

or_else-none {ℓ} : {B : Type ℓ} (o : Option B) → or_else o none ≡ o
or_else-none none = refl
or_else-none (some a) = refl

module _ {A : Type 0} where
  abbrev pub all_nodes : List (List (Node A)) → List (Node A)
  all_nodes [] = []
  all_nodes (b ∷ bs) = b ++ all_nodes bs

  -- The buckets that resize starts from.
  abbrev pub no_nodes : ℕ → List (List (Node A))
  no_nodes m = replicate m []

  attach_nodes-append :
      (xs ys : List (Node A)) (bs : List (List (Node A)))
      → attach_nodes (xs ++ ys) bs ≡ attach_nodes ys (attach_nodes xs bs)
  unfolding attach_nodes
  attach_nodes-append [] ys bs = refl
  attach_nodes-append (x ∷ xs) ys bs =
      attach_nodes-append xs ys (attach (bucket_index x.hash bs) x bs)

  attach_buckets-all_nodes :
      (olds bs : List (List (Node A))) → attach_buckets olds bs ≡ attach_nodes (all_nodes olds) bs
  unfolding attach_buckets
  attach_buckets-all_nodes [] bs = refl
  attach_buckets-all_nodes (old ∷ olds) bs =
      attach_buckets-all_nodes olds (attach_nodes old bs)
      ∙ sym (attach_nodes-append old (all_nodes olds) bs)

  find_if-append :
      (q : List Component) (xs ys : List (Node A))
      → find_if (named q) (xs ++ ys) ≡ or_else (find_if (named q) xs) (find_if (named q) ys)
  find_if-append q [] ys = refl
  find_if-append q (x ∷ xs) ys = ground (arith, find_if-append q xs ys)

  unique-front :
      (x : Node A) (xs : List (Node A))
      → find_if (named x.name) xs ≡ none
      → (q : List Component) (o : Option (Node A))
      → or_else (find_if (named q) xs) (if named q x then some x else o)
        ≡ or_else (find_if (named q) (x ∷ xs)) o
  unique-front x xs alone q o = elim (Bool-cases (same_name q x.name)) [
    | inr differs ↦ rw differs refl
    | inl same ↦
        let e = same_name_iff q x.name same in
        let alone' : find_if (named q) xs ≡ none = rw e alone in rw (same, alone') refl
  ]

replicate-IsPlaced :
    (A : Type 0) (hash : Component → ℕ) (n k m : ℕ) → IsPlaced hash n k (no_nodes {A = A} m)
replicate-IsPlaced A hash n k zero = tt
replicate-IsPlaced A hash n k (suc m) = ((tt, tt), replicate-IsPlaced A hash n (suc k) m)

module _ {A : Type 0} where
  module _ (hash : Component → ℕ) where
    -- The nodes have their names' hashes, and names of their own that are not in the buckets.
    abbrev pub Fresh : List (List (Node A)) → List (Node A) → Type 0
    Fresh bs [] = Unit
    Fresh bs (x ∷ xs) =
        ((x.hash ≡ full_hash hash x.name) × (search hash x.name bs ≡ none)) × Fresh bs xs

    Fresh-attach :
        (node : Node A) (bs : List (List (Node A))) (xs : List (Node A))
        → length bs ≢ 0
        → node.hash ≡ full_hash hash node.name
        → find_if (named node.name) xs ≡ none
        → Fresh bs xs
        → Fresh (attach (bucket_index node.hash bs) node bs) xs
    Fresh-attach node bs [] ne hashed alone f = tt
    Fresh-attach node bs (x ∷ xs) ne hashed alone f =
        let differs : same_name node.name x.name ≡ false = ground (arith, alone) in
        let differs' : same_name x.name node.name ≡ false =
          elim (Bool-cases (same_name x.name node.name)) [
            | inr other ↦ other
            | inl same ↦
                let e = same_name_iff x.name node.name same in
                absurd (ground (arith, differs, same_name_refl node.name, e))
          ] in
        (
          (f.0.0, search-attach hash x.name node bs ne hashed ∙ rw differs' f.0.1),
          Fresh-attach node bs xs ne hashed (ground (arith, alone, differs)) f.1,
        )

    pub attach_nodes_lem :
        (n : ℕ) (nodes : List (Node A)) (bs : List (List (Node A)))
        → length bs ≡ n
        → n ≢ 0
        → UniqueNames nodes
        → Fresh bs nodes
        → IsPlaced hash n 0 bs
        → IsPlaced hash n 0 (attach_nodes nodes bs)
          × ((length (attach_nodes nodes bs) ≡ n)
              × ((q : List Component)
                  → search hash q (attach_nodes nodes bs)
                    ≡ or_else (find_if (named q) nodes) (search hash q bs)))
    unfolding attach_nodes
    attach_nodes_lem n [] bs len ne u f p = (p, (len, λ q. refl))
    attach_nodes_lem n (x ∷ xs) bs len ne u f p =
        let not_empty : length bs ≢ 0 = rw len ne in
        let bs' = attach (bucket_index x.hash bs) x bs in
        let p' = attach-IsPlaced hash n x bs len p f.0.0 f.0.1 in
        let len' = length-attach hash (bucket_index x.hash bs) x bs ∙ len in
        let (placed, (same_length, found)) =
          attach_nodes_lem n xs bs' len' ne u.1 (Fresh-attach x bs xs not_empty f.0.0 u.0 f.1) p' in
        (
          placed,
          (
            same_length,
            λ q.
                found q
                ∙ ap (or_else (find_if (named q) xs)) (search-attach hash q x bs not_empty f.0.0)
                ∙ unique-front x xs u.0 q (search hash q bs),
          ),
        )

    not_in_bucket :
        (n k : ℕ) (q : List Component) (b : List (Node A))
        → full_hash hash q % n ≢ k
        → AllHashed hash n k b
        → find_if (named q) b ≡ none
    not_in_bucket n k q [] ne h = refl
    not_in_bucket n k q (x ∷ xs) ne h = elim (Bool-cases (same_name q x.name)) [
      | inr differs ↦ rw differs (not_in_bucket n k q xs ne h.1)
      | inl same ↦
          let e = same_name_iff q x.name same in
          absurd (ne (ap (λ name. full_hash hash name % n) e ∙ sym (ap (λ h. h % n) h.0.0) ∙ h.0.1))
    ]

    -- All nodes of the buckets have names of their own.
    not_in_later :
        (n k i : ℕ) (q : List Component) (bs : List (List (Node A)))
        → full_hash hash q % n ≡ i
        → i < k
        → IsPlaced hash n k bs
        → find_if (named q) (all_nodes bs) ≡ none
    not_in_later n k i q [] is less p = refl
    not_in_later n k i q (b ∷ bs) is less p =
        find_if-append q b (all_nodes bs)
        ∙ rw (not_in_bucket n k q b (λ e. omega (arith, e, is, less)) p.0.0)
            (not_in_later n (suc k) i q bs is (omega (arith, less)) p.1)

    UniqueNames-append :
        (n k : ℕ) (b : List (Node A)) (bs : List (List (Node A)))
        → AllHashed hash n k b
        → UniqueNames b
        → IsPlaced hash n (suc k) bs
        → UniqueNames (all_nodes bs)
        → UniqueNames (b ++ all_nodes bs)
    UniqueNames-append n k [] bs h u p us = us
    UniqueNames-append n k (x ∷ xs) bs h u p us =
        let to_k = sym (ap (λ h. h % n) h.0.0) ∙ h.0.1 in
        (
          find_if-append x.name xs (all_nodes bs)
              ∙ rw u.0 (not_in_later n (suc k) k x.name bs to_k (omega arith) p),
          UniqueNames-append n k xs bs h.1 u.1 p us,
        )

    all_nodes-UniqueNames :
        (n k : ℕ) (bs : List (List (Node A))) → IsPlaced hash n k bs → UniqueNames (all_nodes bs)
    all_nodes-UniqueNames n k [] p = tt
    all_nodes-UniqueNames n k (b ∷ bs) p =
        UniqueNames-append n k b bs p.0.0 p.0.1 p.1 (all_nodes-UniqueNames n (suc k) bs p.1)

    -- A search in the buckets is one in all nodes.
    find_all :
        (n k i : ℕ) (q : List Component) (bs : List (List (Node A)))
        → full_hash hash q % n ≡ k + i
        → IsPlaced hash n k bs
        → find_if (named q) (all_nodes bs) ≡ find_if (named q) (bucket_at i bs)
    find_all n k i q [] is p = refl
    find_all n k zero q (b ∷ bs) is p =
        find_if-append q b (all_nodes bs)
        ∙ rw (not_in_later n (suc k) k q bs (omega (arith, is)) (omega arith) p.1)
            (or_else-none (find_if (named q) b))
    find_all n k (suc i) q (b ∷ bs) is p =
        find_if-append q b (all_nodes bs)
        ∙ rw (not_in_bucket n k q b (λ e. omega (arith, e, is)) p.0.0)
            (find_all n (suc k) i q bs (omega (arith, is)) p.1)

    bucket_at-replicate : (i m : ℕ) → bucket_at i (no_nodes {A = A} m) ≡ []
    bucket_at-replicate i zero = refl
    bucket_at-replicate zero (suc m) = refl
    bucket_at-replicate (suc i) (suc m) = bucket_at-replicate i m

    search-replicate : (q : List Component) (m : ℕ) → search hash q (no_nodes {A = A} m) ≡ none
    unfolding find_node
    search-replicate q m =
        ap (find_if (is_node (full_hash hash q) q))
          (bucket_at-replicate (full_hash hash q % length (no_nodes {A = A} m)) m)

    Fresh-append :
        (n k m : ℕ) (b ys : List (Node A))
        → AllHashed hash n k b
        → Fresh (no_nodes {A = A} m) ys
        → Fresh (no_nodes {A = A} m) (b ++ ys)
    Fresh-append n k m [] ys h f = f
    Fresh-append n k m (x ∷ xs) ys h f =
        ((h.0.0, search-replicate x.name m), Fresh-append n k m xs ys h.1 f)

    all_nodes-Fresh :
        (n k m : ℕ) (bs : List (List (Node A)))
        → IsPlaced hash n k bs
        → Fresh (no_nodes {A = A} m) (all_nodes bs)
    all_nodes-Fresh n k m [] p = tt
    all_nodes-Fresh n k m (b ∷ bs) p =
        Fresh-append n k m b (all_nodes bs) p.0.0 (all_nodes-Fresh n (suc k) m bs p.1)

    -- The buckets are those of their number, of which there is at least one.
    pub record IsValid (bs : List (List (Node A))) : Type 0 where
      pub not_empty : length bs ≢ 0
      pub is_placed : IsPlaced hash (length bs) 0 bs

    -- A resize to at least one bucket keeps the table valid, and every search.
    pub resize_lem :
        (m : ℕ) (ht : Hashtable A)
        → m ≢ 0
        → IsValid ht.buckets
        → IsValid (resize m ht).buckets
          × ((q : List Component) → search hash q (resize m ht).buckets ≡ search hash q ht.buckets)
    unfolding resize
    resize_lem m ht ne v = elim (Bool-cases (length ht.buckets == m)) [
      | inl same ↦ rw (same, resize) (v, λ q. refl)
      | inr differs ↦
          let n = length ht.buckets in
          let empty = no_nodes {A = A} m in
          let (placed, (len, found)) =
            attach_nodes_lem m (all_nodes ht.buckets) empty (length-replicate m []) ne
              (all_nodes-UniqueNames n 0 ht.buckets v.is_placed)
              (all_nodes-Fresh n 0 m ht.buckets v.is_placed) (replicate-IsPlaced A hash m 0 m) in
          let same_buckets = attach_buckets-all_nodes ht.buckets empty in
          rw (differs, resize, same_buckets)
            (
              record { not_empty = rw len ne; is_placed = rw len placed },
              λ q.
                  found q
                  ∙ ap (or_else (find_if (named q) (all_nodes ht.buckets))) (search-replicate q m)
                  ∙ or_else-none (find_if (named q) (all_nodes ht.buckets))
                  ∙ find_all n 0 (full_hash hash q % n) q ht.buckets (omega arith) v.is_placed
                  ∙ sym (search-bucket hash n q ht.buckets refl v.is_placed),
            )
    ]
