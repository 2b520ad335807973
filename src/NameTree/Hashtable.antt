-- ===== src/NameTree/Hashtable.antt =====
-- The hash table of table/name-tree-hashtable.cpp. A bucket is the list of its nodes, from its head
-- on; what an entry holds besides its name is a parameter. The load and resize factors, doubles in the
-- source, are functions of the number of buckets.
pub mod Buckets
pub mod Resize
pub mod Map
pub mod Erase
use ndn_share.Base.{
  ℕ, zero, suc, ◌+◌, ◌-◌, ◌%◌, max, Bool, true, false, ◌&&◌, Option, none, some, List, [], ◌∷◌, ltb,
  ◌==◌, if◌then◌else◌, length, get_elem?, set, take, replicate, find_if, erase_first,
}
use ndn_share.NameTree.Hashes.{Component, compute_hash}

unfoldable pub same_name : List Component → List Component → Bool
same_name [] [] = true
same_name [] (d ∷ ds) = false
same_name (c ∷ cs) [] = false
same_name (c ∷ cs) (d ∷ ds) = (c == d) && same_name cs ds

pub record Node (A : Type 0) : Type 0 where
  pub hash : ℕ
  pub name : List Component
  pub content : A

-- `expand_threshold` and `shrink_threshold` are expandLoadFactor and shrinkLoadFactor times the number
-- of buckets; `expanded` and `shrunk` are expandFactor and shrinkFactor times it.
pub record HashtableOptions : Type 0 where
  pub initial_size : ℕ
  pub min_size : ℕ
  pub expand_threshold : ℕ → ℕ
  pub expanded : ℕ → ℕ
  pub shrink_threshold : ℕ → ℕ
  pub shrunk : ℕ → ℕ

-- The thresholds are those of the number of buckets: computeThresholds runs when that changes.
pub record Hashtable (A : Type 0) : Type 0 where
  pub buckets : List (List (Node A))
  pub size : ℕ

module _ {A : Type 0} where
  -- m_buckets[bucket]
  abbrev pub bucket_at : ℕ → List (List (Node A)) → List (Node A)
  bucket_at bucket buckets = elim (get_elem? buckets bucket) [ none ↦ [] | some nodes ↦ nodes ]

  abbrev pub bucket_index : ℕ → List (List (Node A)) → ℕ
  bucket_index h buckets = h % length buckets

  unfoldable pub attach : ℕ → Node A → List (List (Node A)) → List (List (Node A))
  attach bucket node buckets = set buckets bucket (node ∷ bucket_at bucket buckets)

  unfoldable pub detach : ℕ → List Component → List (List (Node A)) → List (List (Node A))
  unfolding same_name
  detach bucket name buckets =
      set buckets bucket (erase_first (λ node. same_name node.name name) (bucket_at bucket buckets))

  -- The two loops of resize.
  unfoldable pub attach_nodes : List (Node A) → List (List (Node A)) → List (List (Node A))
  unfolding attach
  attach_nodes [] buckets = buckets
  attach_nodes (node ∷ nodes) buckets =
      attach_nodes nodes (attach (bucket_index node.hash buckets) node buckets)

  unfoldable pub attach_buckets : List (List (Node A)) → List (List (Node A)) → List (List (Node A))
  unfolding attach_nodes
  attach_buckets [] buckets = buckets
  attach_buckets (old ∷ olds) buckets = attach_buckets olds (attach_nodes old buckets)

  unfoldable pub resize : ℕ → Hashtable A → Hashtable A
  unfolding attach_buckets
  resize new_n_buckets ht =
      if length ht.buckets == new_n_buckets
      then ht
      else record ht { buckets = attach_buckets ht.buckets (replicate new_n_buckets []) }

  -- The search of findOrInsert.
  unfoldable pub is_node : ℕ → List Component → Node A → Bool
  unfolding same_name
  is_node h name node = (node.hash == h) && same_name name node.name

  unfoldable pub find_node : ℕ → List Component → List (List (Node A)) → Option (Node A)
  unfolding is_node
  find_node h name buckets = find_if (is_node h name) (bucket_at (bucket_index h buckets) buckets)

module _ {A : Type 0} (options : HashtableOptions) where
  unfoldable pub init : Hashtable A
  init = record { buckets = replicate options.initial_size []; size = 0 }

module _ {A : Type 0} (hash : Component → ℕ) (options : HashtableOptions) where
  unfoldable pub find : Hashtable A → List Component → (prefix_len : ℕ) → Option (Node A)
  unfolding compute_hash find_node
  find ht name prefix_len =
      find_node (compute_hash hash name prefix_len) (take prefix_len name) ht.buckets

  -- findOrInsert, where insertion is allowed: the node, and whether it is new.
  unfoldable pub insert :
      Hashtable A
      → List Component
      → (prefix_len : ℕ) → (content : A) → Hashtable A × (Node A × Bool)
  unfolding find compute_hash attach resize
  insert ht name prefix_len content = elim (find ht name prefix_len) [
    | some node ↦ (ht, (node, false))
    | none ↦
        let h = compute_hash hash name prefix_len in
        let node : Node A = record { hash = h; name = take prefix_len name; content = content } in
        let attached : Hashtable A = record {
          buckets = attach (bucket_index h ht.buckets) node ht.buckets;
          size = ht.size + 1;
        } in
        (
          if ltb (options.expand_threshold (length ht.buckets)) attached.size
              then resize (options.expanded (length ht.buckets)) attached
              else attached,
          (node, true),
        )
  ]

  unfoldable pub erase : Hashtable A → Node A → Hashtable A
  unfolding detach resize
  erase ht node =
      let detached : Hashtable A = record {
        buckets = detach (bucket_index node.hash ht.buckets) node.name ht.buckets;
        size = ht.size - 1;
      } in
      if ltb detached.size (options.shrink_threshold (length ht.buckets))
      then resize (max options.min_size (options.shrunk (length ht.buckets))) detached
      else detached
