-- ===== src/Tests/Fib.antt =====
-- Next hops at a concrete entry: face 1 at cost 10 and face 2 at cost 20.
use ndn_share.Base.{◌≡◌, ◌≢◌, refl, some, List, [], ◌∷◌, update_first}
use ndn_share.Face.{Face}
use ndn_share.Fib.{NextHop, find_next_hop, add_next_hop, sort_next_hops, insert_hop}
use ndn_share.Fib.Costs.{cost_of, IsSorted, add_next_hop_lem}
use ndn_share.Tests.Pit.{face}

abbrev hops : List NextHop
hops = record { face = face 1; cost = 10 } ∷ record { face = face 2; cost = 20 } ∷ []

-- Face 2 comes first at cost 5.
cheaper :
    add_next_hop hops (face 2) 5
    ≡ record { face = face 2; cost = 5 } ∷ record { face = face 1; cost = 10 } ∷ []
unfolding add_next_hop sort_next_hops insert_hop update_first
cheaper = refl

add_next_hop_lem_example :
    (cost_of (find_next_hop (add_next_hop hops (face 2) 5) (face 2)) ≡ some 5)
    × ((other : Face)
        → 2 ≢ other.address
        → find_next_hop (add_next_hop hops (face 2) 5) other ≡ find_next_hop hops other)
    × IsSorted (add_next_hop hops (face 2) 5)
add_next_hop_lem_example = add_next_hop_lem hops (face 2) 5 (refl, (refl, tt))
