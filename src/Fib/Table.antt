-- ===== src/Fib/Table.antt =====
-- table/fib.cpp: the FIB over the name tree. An entry that is not in the tree, Fib::s_emptyEntry, is
-- `none`.
pub mod Items
pub mod Insertion
use ndn_share.Base.{
  ℕ, ◌+◌, ◌-◌, ◌%◌, ◌^◌, Bool, true, false, ◌||◌, Option, none, some, List, [], ◌∷◌, if◌then◌else◌,
  length, take,
}
use ndn_share.Face.{Face}
use ndn_share.Fib.{NextHop, remove_next_hop}
use ndn_share.NameTree.Hashes.{Component}
use ndn_share.NameTree.Tree.{
  NteEntry, NameTree, find_exact_match, change_nte, lookup, erase_if_empty,
  find_longest_prefix_match,
}

-- What the tables attach to an entry of the name tree: a FIB entry, by its next hops, and whether the
-- PIT, the measurements or the strategy choice attach anything.
pub record Attached : Type 0 where
  pub fib_entry : Option (List NextHop)
  pub has_others : Bool

abbrev pub nothing_attached : Attached
nothing_attached = record { fib_entry = none; has_others = false }

abbrev pub nte_has_fib_entry : Attached → Bool
nte_has_fib_entry content = elim content.fib_entry [ none ↦ false | some hops ↦ true ]

abbrev pub has_table_entries : Attached → Bool
has_table_entries content = nte_has_fib_entry content || content.has_others

abbrev pub set_fib_entry : Option (List NextHop) → NteEntry Attached → NteEntry Attached
set_fib_entry entry nte = record nte { content = record nte.content { fib_entry = entry } }

pub record FibTable : Type 0 where
  pub name_tree : NameTree Attached
  pub n_items : ℕ

-- findExactMatch: the next hops of the FIB entry, if there is one.
unfoldable pub find_exact : FibTable → List Component → Option (List NextHop)
unfolding find_exact_match
find_exact fib prefix = elim (find_exact_match fib.name_tree prefix) [
  | none ↦ none
  | some nte ↦ nte.content.fib_entry
]

-- findLongestPrefixMatch, by name.
unfoldable pub find_longest : FibTable → List Component → Option (List NextHop)
unfolding find_longest_prefix_match find_exact
find_longest fib name = elim (find_longest_prefix_match nte_has_fib_entry fib.name_tree name) [
  | none ↦ none
  | some n ↦ find_exact fib (take n name)
]

-- Whether the entry is new. size_t wraps around.
unfoldable pub insert : FibTable → List Component → FibTable × Bool
unfolding lookup find_exact change_nte
insert fib prefix =
    let grown = record fib { name_tree = lookup nothing_attached prefix fib.name_tree } in
    elim (find_exact grown prefix) [
      | some hops ↦ (grown, false)
      | none ↦ (
        record grown {
          name_tree = change_nte (set_fib_entry (some [])) prefix grown.name_tree;
          n_items = (grown.n_items + 1) % 2 ^ 64;
        },
        true,
      )
    ]

-- Fib::erase of an entry of the name tree.
unfoldable pub erase_nte : FibTable → List Component → (can_delete_nte : Bool) → FibTable
unfolding change_nte erase_if_empty
erase_nte fib prefix can_delete_nte =
    let cleared = change_nte (set_fib_entry none) prefix fib.name_tree in
    record fib {
      name_tree =
          if can_delete_nte
          then (erase_if_empty has_table_entries true (length prefix + 1) prefix cleared).0
          else cleared;
      n_items = (fib.n_items + (2 ^ 64 - 1)) % 2 ^ 64;
    }

-- Fib::erase of a prefix.
unfoldable pub erase : FibTable → List Component → FibTable
unfolding find_exact_match erase_nte
erase fib prefix = elim (find_exact_match fib.name_tree prefix) [
  | none ↦ fib
  | some nte ↦ erase_nte fib prefix true
]

-- Fib::removeNextHop, of the entry of a prefix.
unfoldable pub remove_hop : FibTable → List Component → Face → FibTable
unfolding find_exact change_nte erase_nte remove_next_hop
remove_hop fib prefix face = elim (find_exact fib prefix) [
  | none ↦ fib
  | some hops ↦
      let rest = remove_next_hop hops face in
      let removed = record fib {
        name_tree = change_nte (set_fib_entry (some rest)) prefix fib.name_tree;
      } in
      elim rest [ [] ↦ erase_nte removed prefix false | hop ∷ hops ↦ removed ]
]
