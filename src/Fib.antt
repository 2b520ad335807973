-- ===== src/Fib.antt =====
-- table/fib-entry.cpp and table/fib-nexthop.hpp: the next hops of a FIB entry, sorted by cost. Where
-- costs are equal std::sort may leave any order; here equal next hops keep theirs.
-- The FIB over the name tree is Fib/Table.antt.
pub mod Costs
pub mod Table
use ndn_share.Base.{
  ℕ, Bool, Option, none, some, List, [], ◌∷◌, ◌++◌, ltb, leb, ◌==◌, if◌then◌else◌, find_if,
  erase_first, update_first,
}
use ndn_share.Face.{Face}

pub record NextHop : Type 0 where
  pub face : Face
  pub cost : ℕ

abbrev pub address_of : NextHop → ℕ
address_of hop = hop.face.address

abbrev pub hop_of : Face → NextHop → Bool
hop_of face hop = address_of hop == face.address

abbrev pub find_next_hop : List NextHop → Face → Option NextHop
find_next_hop hops face = find_if (hop_of face) hops

unfoldable pub insert_hop : NextHop → List NextHop → List NextHop
insert_hop hop [] = hop ∷ []
insert_hop hop (x ∷ xs) =
    let rest = insert_hop hop xs in if leb hop.cost x.cost then hop ∷ x ∷ xs else x ∷ rest

unfoldable pub sort_next_hops : List NextHop → List NextHop
unfolding insert_hop
sort_next_hops [] = []
sort_next_hops (x ∷ xs) = insert_hop x (sort_next_hops xs)

abbrev pub set_cost : ℕ → NextHop → NextHop
set_cost cost hop = record hop { cost = cost }

unfoldable pub add_next_hop : List NextHop → Face → (cost : ℕ) → List NextHop
unfolding sort_next_hops
add_next_hop hops face cost = elim (update_first (hop_of face) (set_cost cost) hops) [
  | none ↦ sort_next_hops (hops ++ record { face = face; cost = cost } ∷ [])
  | some updated ↦ sort_next_hops updated
]

unfoldable pub remove_next_hop : List NextHop → Face → List NextHop
remove_next_hop hops face = erase_first (hop_of face) hops
