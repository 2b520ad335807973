-- ===== src/Fib/Costs.antt =====
-- The next hops as a map from faces to costs, and their order.
use ndn_share.Base.{
  ℕ, ◌≤◌, ◌≡◌, refl, ◌∙◌, ◌≢◌, inl, inr, Bool-cases, Option, none, some, List, [], ◌∷◌, ◌++◌, leb,
  ◌==◌, if◌then◌else◌, find_if, arith,
}
use ndn_share.Base.Keyed.{by_key, OnePerKey, find_if-update_first, update_first-OnePerKey}
use ndn_share.Face.{Face}
use ndn_share.Fib.{
  NextHop, address_of, find_next_hop, insert_hop, sort_next_hops, set_cost, add_next_hop,
}

-- No next hop costs less than this.
abbrev pub AtLeast : ℕ → List NextHop → Type 0
AtLeast c [] = Unit
AtLeast c (x ∷ xs) = (c ≤ x.cost) × AtLeast c xs

abbrev pub IsSorted : List NextHop → Type 0
IsSorted [] = Unit
IsSorted (x ∷ xs) = AtLeast x.cost xs × IsSorted xs

abbrev pub cost_of : Option NextHop → Option ℕ
cost_of none = none
cost_of (some hop) = some hop.cost

AtLeast-le : (c d : ℕ) (xs : List NextHop) → c ≤ d → AtLeast d xs → AtLeast c xs
AtLeast-le c d [] le a = tt
AtLeast-le c d (x ∷ xs) le a = (omega (arith, a.0), AtLeast-le c d xs le a.1)

insert_hop-AtLeast :
    (c : ℕ) (hop : NextHop) (xs : List NextHop)
    → c ≤ hop.cost
    → AtLeast c xs
    → AtLeast c (insert_hop hop xs)
unfolding insert_hop
insert_hop-AtLeast c hop [] le a = (le, tt)
insert_hop-AtLeast c hop (x ∷ xs) le a = elim (Bool-cases (leb hop.cost x.cost)) [
  | inl e ↦ rw e (le, a)
  | inr e ↦ rw e (a.0, insert_hop-AtLeast c hop xs le a.1)
]

insert_hop-IsSorted :
    (hop : NextHop) (xs : List NextHop) → IsSorted xs → IsSorted (insert_hop hop xs)
unfolding insert_hop
insert_hop-IsSorted hop [] s = (tt, tt)
insert_hop-IsSorted hop (x ∷ xs) s = elim (Bool-cases (leb hop.cost x.cost)) [
  | inl e ↦ rw e ((ground arith, AtLeast-le hop.cost x.cost xs (ground arith) s.0), s)
  | inr e ↦
      rw e (insert_hop-AtLeast x.cost hop xs (ground arith) s.0, insert_hop-IsSorted hop xs s.1)
]

sort_next_hops-IsSorted : (xs : List NextHop) → IsSorted (sort_next_hops xs)
unfolding sort_next_hops
sort_next_hops-IsSorted [] = tt
sort_next_hops-IsSorted (x ∷ xs) =
    insert_hop-IsSorted x (sort_next_hops xs) (sort_next_hops-IsSorted xs)

-- A search by face, where the face of the new next hop is not there yet.
find_if-insert_hop :
    (k : ℕ) (hop : NextHop) (xs : List NextHop)
    → find_if (by_key address_of (address_of hop)) xs ≡ none
    → find_if (by_key address_of k) (insert_hop hop xs)
      ≡ (if address_of hop == k then some hop else find_if (by_key address_of k) xs)
unfolding insert_hop
find_if-insert_hop k hop [] absent = refl
find_if-insert_hop k hop (x ∷ xs) absent =
    ground (arith, absent, find_if-insert_hop k hop xs (ground (arith, absent)))

find_if-sort_next_hops :
    (k : ℕ) (xs : List NextHop)
    → OnePerKey address_of xs
    → find_if (by_key address_of k) (sort_next_hops xs) ≡ find_if (by_key address_of k) xs
unfolding sort_next_hops
find_if-sort_next_hops k [] u = refl
find_if-sort_next_hops k (x ∷ xs) u =
    find_if-insert_hop k x (sort_next_hops xs) (find_if-sort_next_hops (address_of x) xs u.1 ∙ u.0)
    ∙ ground (arith, find_if-sort_next_hops k xs u.1)

find_if-append :
    (k : ℕ) (xs : List NextHop) (hop : NextHop)
    → find_if (by_key address_of k) xs ≡ none
    → find_if (by_key address_of k) (xs ++ hop ∷ [])
      ≡ (if address_of hop == k then some hop else none)
find_if-append k [] hop absent = refl
find_if-append k (x ∷ xs) hop absent = grind (arith, absent, find_if-append k xs hop)

find_if-append_ne :
    (k : ℕ) (xs : List NextHop) (hop : NextHop)
    → address_of hop ≢ k
    → find_if (by_key address_of k) (xs ++ hop ∷ []) ≡ find_if (by_key address_of k) xs
find_if-append_ne k [] hop ne = ground (arith, ne)
find_if-append_ne k (x ∷ xs) hop ne = ground (arith, find_if-append_ne k xs hop ne)

append-OnePerKey :
    (xs : List NextHop) (hop : NextHop)
    → find_if (by_key address_of (address_of hop)) xs ≡ none
    → OnePerKey address_of xs
    → OnePerKey address_of (xs ++ hop ∷ [])
append-OnePerKey [] hop absent u = (refl, tt)
append-OnePerKey (x ∷ xs) hop absent u = (
  find_if-append_ne (address_of x) xs hop (ground (arith, absent)) ∙ u.0,
  append-OnePerKey xs hop (ground (arith, absent)) u.1,
)

-- With one next hop for a face at most, addNextHop gives the face the cost, leaves that of every other
-- face, and leaves the next hops sorted by cost.
pub add_next_hop_lem :
    (hops : List NextHop) (face : Face) (cost : ℕ)
    → OnePerKey address_of hops
    → let after = add_next_hop hops face cost in
      (cost_of (find_next_hop after face) ≡ some cost)
      × ((other : Face)
          → face.address ≢ other.address
          → find_next_hop after other ≡ find_next_hop hops other)
      × IsSorted after
unfolding add_next_hop
add_next_hop_lem hops face cost u =
    elim (find_if-update_first address_of (set_cost cost) (λ x. refl) face.address hops) [
      | inl (missing, absent) ↦
          let hop : NextHop = record { face = face; cost = cost } in
          let v = append-OnePerKey hops hop missing u in
          rw (absent, add_next_hop)
            (
              ground (
                arith,
                find_if-sort_next_hops face.address (hops ++ hop ∷ []) v,
                find_if-append face.address hops hop missing,
              ),
              (λ other ne.
                  find_if-sort_next_hops other.address (hops ++ hop ∷ []) v
                  ∙ find_if-append_ne other.address hops hop ne),
              sort_next_hops-IsSorted (hops ++ hop ∷ []),
            )
      | inr (old, updated, was, stored, found, others) ↦
          let v =
            update_first-OnePerKey address_of (set_cost cost) (λ x. refl) face.address hops updated
              u stored in
          rw (stored, add_next_hop)
            (
              ground (arith, find_if-sort_next_hops face.address updated v, found),
              (λ other ne.
                  find_if-sort_next_hops other.address updated v ∙ others other.address ne),
              sort_next_hops-IsSorted updated,
            )
    ]
