-- ===== src/Tests/NameTree.antt =====
-- The hash table of the name tree with two buckets, which grows to four when a third node comes.
use ndn_share.Base.{ℕ, ◌+◌, ◌*◌, ◌/◌, ◌≡◌, refl, none, some, List, false, [], ◌∷◌, get_elem?, arith}
use ndn_share.Base.Assoc
use ndn_share.Fib.{NextHop}
use ndn_share.Fib.Table.{Attached, nothing_attached, nte_has_fib_entry, FibTable, find_longest}
use ndn_share.Fib.Table
use ndn_share.Fib.Table.Insertion.{IsEntryInserted, insert-IsEntryInserted}
use ndn_share.Fib.Table.Items.{IsLongestEntry, find_longest-IsLongestEntry}
use ndn_share.NameTree.Tree.{NameTree, lookup, find_exact_match, match_name, match_parents}
use ndn_share.NameTree.Tree.Match.{has, IsClosed}
use ndn_share.NameTree.Tree.Parents.{
  parent_at, IsLinked, lookup-IsLinked, prefix_of, match_parents-match_name,
}
use ndn_share.NameTree.Tree.Closed.{IsLookedUp, lookup-IsLookedUp}
use ndn_share.Tests.Pit.{face}
use ndn_share.NameTree.Hashes.{hash_from, compute_hash, compute_hashes, compute_hashes-compute_hash}
use ndn_share.NameTree.Hashtable.{
  HashtableOptions, Hashtable, Node, insert, erase, find_node, is_node, same_name,
}
use ndn_share.NameTree.Hashtable.Resize.{IsValid}
use ndn_share.NameTree.Hashtable.Map.{IsUpdate, IsInserted, insert-IsInserted}
use ndn_share.NameTree.Hashtable.Erase.{erase-IsUpdate}

abbrev component_hash : ℕ → ℕ
component_hash c = c

abbrev table_options : HashtableOptions
table_options = record {
  initial_size = 2;
  min_size = 2;
  expand_threshold = λ n. n;
  expanded = λ n. n * 2;
  shrink_threshold = λ n. n / 10;
  shrunk = λ n. n / 2;
}

abbrev node_of : ℕ → Node ℕ
node_of c = record { hash = c; name = c ∷ []; content = 50 + c }

-- The names of one component, 4 and 7.
abbrev two_nodes : Hashtable ℕ
two_nodes = record { buckets = (node_of 4 ∷ []) ∷ (node_of 7 ∷ []) ∷ []; size = 2 }

two_nodes-IsValid : IsValid component_hash two_nodes.buckets
unfolding hash_from
two_nodes-IsValid = record {
  not_empty = λ e. cc;
  is_placed = ((((refl, refl), tt), (refl, tt)), ((((refl, refl), tt), (refl, tt)), tt));
}

compute_hashes-compute_hash_example :
    get_elem? (compute_hashes component_hash (4 ∷ 7 ∷ [])) 1
    ≡ some (compute_hash component_hash (4 ∷ 7 ∷ []) 1)
compute_hashes-compute_hash_example =
    compute_hashes-compute_hash component_hash (4 ∷ 7 ∷ []) 1 (omega arith)

insert-IsInserted_example :
    IsInserted component_hash table_options two_nodes
      (6 ∷ 9 ∷ [])
      1
      (insert component_hash table_options two_nodes (6 ∷ 9 ∷ []) 1 60)
insert-IsInserted_example =
    insert-IsInserted component_hash table_options two_nodes (6 ∷ 9 ∷ []) 1 60 two_nodes-IsValid
      (λ n ne e. ne (omega (arith, e)))

erase-IsUpdate_example :
    IsValid component_hash (erase component_hash table_options two_nodes (node_of 4)).buckets
    × IsUpdate component_hash two_nodes
        (4 ∷ [])
        none
        (erase component_hash table_options two_nodes (node_of 4))
unfolding hash_from find_node is_node same_name
erase-IsUpdate_example =
    erase-IsUpdate component_hash table_options two_nodes (node_of 4) two_nodes-IsValid (λ e. cc)
      refl

abbrev empty_tree : NameTree Attached
empty_tree = []

-- The tree with the entries of a name of two components and of its prefixes.
abbrev grown : NameTree Attached
grown = lookup nothing_attached (4 ∷ 7 ∷ []) empty_tree

empty-IsClosed : IsClosed empty_tree
unfolding has find_exact_match Assoc.lookup
empty-IsClosed q k h = absurd (cc)

lookup-IsLookedUp_example : IsLookedUp empty_tree (4 ∷ 7 ∷ []) grown
lookup-IsLookedUp_example =
    lookup-IsLookedUp nothing_attached (4 ∷ 7 ∷ []) empty_tree empty-IsClosed

abbrev hops : List NextHop
hops = record { face = face 1; cost = 10 } ∷ []

abbrev fib : FibTable
fib = record {
  name_tree =
      ([], record { parent = none; children = (4 ∷ []) ∷ []; content = nothing_attached })
      ∷ (
        4 ∷ [],
        record {
          parent = some [];
          children = [];
          content = record { fib_entry = some hops; has_others = false };
        },
      )
      ∷ [];
  n_items = 1;
}

find_longest-IsLongestEntry_example :
    IsLongestEntry fib (4 ∷ 7 ∷ []) (find_longest fib (4 ∷ 7 ∷ []))
find_longest-IsLongestEntry_example = find_longest-IsLongestEntry fib (4 ∷ 7 ∷ [])

grown-IsClosed : IsClosed grown
unfolding lookup
grown-IsClosed =
    (lookup-IsLookedUp nothing_attached (4 ∷ 7 ∷ []) empty_tree empty-IsClosed).is_closed

empty-IsLinked : IsLinked empty_tree
unfolding parent_at find_exact_match Assoc.lookup
empty-IsLinked = record { root_parent = λ x h. absurd (cc); own_parent = λ q k x le h. absurd (cc) }

lookup-IsLinked_example : IsLinked grown
lookup-IsLinked_example = lookup-IsLinked nothing_attached (4 ∷ 7 ∷ []) empty_tree empty-IsLinked

match_parents-match_name_example :
    match_parents nte_has_fib_entry grown 2 (4 ∷ [])
    ≡ prefix_of (4 ∷ 7 ∷ []) (match_name nte_has_fib_entry grown (4 ∷ 7 ∷ []) 1)
unfolding lookup
match_parents-match_name_example =
    match_parents-match_name nte_has_fib_entry grown (4 ∷ 7 ∷ []) 2 1 (omega arith) (omega arith)
      (lookup-IsLinked nothing_attached (4 ∷ 7 ∷ []) empty_tree empty-IsLinked) grown-IsClosed
      ((lookup-IsLookedUp nothing_attached (4 ∷ 7 ∷ []) empty_tree empty-IsClosed).has_prefixes 1
        (omega arith))

abbrev grown_fib : FibTable
grown_fib = record { name_tree = grown; n_items = 0 }

insert-IsEntryInserted_example :
    IsEntryInserted grown_fib
      (4 ∷ [])
      (Table.insert grown_fib (4 ∷ [])).0
      (Table.insert grown_fib (4 ∷ [])).1
insert-IsEntryInserted_example = insert-IsEntryInserted grown_fib (4 ∷ []) grown-IsClosed
