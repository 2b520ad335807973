-- ===== src/NameTree/Hashtable/Map.antt =====
-- The hash table implements a map from names, whatever the resizes.
use ndn_share.Base.{
  ℕ, ◌+◌, ◌≡◌, ◌≢◌, refl, ap, ◌∙◌, inl, inr, Bool, true, false, Bool-cases, Option-cases, Option,
  none, some, List, ltb, if◌then◌else◌, length, take,
}
use ndn_share.NameTree.Hashes.{Component, compute_hash}
use ndn_share.NameTree.Hashtable.{
  same_name, Node, Hashtable, HashtableOptions, bucket_index, attach, resize, find, insert,
}
use ndn_share.NameTree.Hashtable.Buckets.{
  same_name_iff, full_hash, search, search-attach, length-attach, attach-IsPlaced,
}
use ndn_share.NameTree.Hashtable.Resize.{IsValid, resize_lem}

module _ {A : Type 0} (hash : Component → ℕ) where
  -- The second table has, under every name, what the first has, but this under that name.
  abbrev pub IsUpdate :
      Hashtable A → (name : List Component) → Option (Node A) → Hashtable A → Type 0
  IsUpdate ht name o ht' =
      (q : List Component)
      → search hash q ht'.buckets ≡ (if same_name q name then o else search hash q ht.buckets)

  attach-IsUpdate :
      (ht : Hashtable A) (node : Node A) (size : ℕ)
      → IsValid hash ht.buckets
      → node.hash ≡ full_hash hash node.name
      → search hash node.name ht.buckets ≡ none
      → IsValid hash (attach (bucket_index node.hash ht.buckets) node ht.buckets)
        × IsUpdate ht node.name (some node) (record {
          buckets = attach (bucket_index node.hash ht.buckets) node ht.buckets;
          size = size;
        })
  attach-IsUpdate ht node size v hashed fresh =
      let n = length ht.buckets in
      let len = length-attach hash (bucket_index node.hash ht.buckets) node ht.buckets in
      let placed = attach-IsPlaced hash n node ht.buckets refl v.is_placed hashed fresh in
      (
        record { not_empty = rw len v.not_empty; is_placed = rw len placed },
        λ q. search-attach hash q node ht.buckets v.not_empty hashed,
      )

  pub resize-IsUpdate :
      (ht ht' : Hashtable A) (name : List Component) (o : Option (Node A)) (resizes : Bool) (m : ℕ)
      → m ≢ 0
      → IsValid hash ht'.buckets
      → IsUpdate ht name o ht'
      → IsValid hash (if resizes then resize m ht' else ht').buckets
        × IsUpdate ht name o (if resizes then resize m ht' else ht')
  resize-IsUpdate ht ht' name o false m ne v u = (v, u)
  resize-IsUpdate ht ht' name o true m ne v u =
      let (v', same) = resize_lem hash m ht' ne v in (v', λ q. same q ∙ u q)

  module _ (options : HashtableOptions) where
    -- An insertion's result, with the node that it gives.
    pub record IsInserted (ht : Hashtable A) (name : List Component) (prefix_len : ℕ)
        (result : Hashtable A × (Node A × Bool)) : Type 0 where
      pub is_valid : IsValid hash result.0.buckets
      pub is_update : IsUpdate ht (take prefix_len name) (some result.1.0) result.0
      pub is_old :
          result.1.1 ≡ false
          → (result.0 ≡ ht) × (find hash options ht name prefix_len ≡ some result.1.0)
      pub is_new :
          result.1.1 ≡ true
          → (find hash options ht name prefix_len ≡ none) × (result.1.0.name ≡ take prefix_len name)

    -- An insertion into a valid table, where an expansion leaves no table without buckets, gives the node that
    -- the table has under the prefix of the name, or a new one where it has none; after it the table
    -- is valid and has that node under the prefix, and under other names what it had.
    pub insert-IsInserted :
        (ht : Hashtable A) (name : List Component) (prefix_len : ℕ) (content : A)
        → IsValid hash ht.buckets
        → ((n : ℕ) → n ≢ 0 → options.expanded n ≢ 0)
        → IsInserted ht name prefix_len (insert hash options ht name prefix_len content)
    unfolding insert find compute_hash
    insert-IsInserted ht name prefix_len content v ne =
        let q = take prefix_len name in
        elim (Option-cases (find hash options ht name prefix_len)) [
          | inr (node, found) ↦
              rw (found, insert)
                (record {
                  is_valid = v;
                  is_update = λ other. elim (Bool-cases (same_name other q)) [
                    | inr differs ↦ rw differs refl
                    | inl same ↦
                        let e = same_name_iff other q same in
                        ap (λ name. search hash name ht.buckets) e ∙ found ∙ rw same refl
                  ];
                  is_old = λ _. (refl, found);
                  is_new = λ e. absurd (cc);
                })
          | inl absent ↦
              let node : Node A = record { hash = full_hash hash q; name = q; content = content } in
              let (placed, update) = attach-IsUpdate ht node (ht.size + 1) v refl absent in
              let (placed', update') =
                resize-IsUpdate ht
                  (record {
                    buckets = attach (bucket_index (full_hash hash q) ht.buckets) node ht.buckets;
                    size = ht.size + 1;
                  })
                  q (some node) (ltb (options.expand_threshold (length ht.buckets)) (ht.size + 1))
                  (options.expanded (length ht.buckets)) (ne (length ht.buckets) v.not_empty) placed
                  update in
              rw (absent, insert)
                (record {
                  is_valid = placed';
                  is_update = update';
                  is_old = λ e. absurd (cc);
                  is_new = λ _. (absent, refl);
                })
        ]
