-- ===== src/Cs/Lru/Laws.antt =====
-- The queue of the LRU policy keeps track of the table's entries.
use ndn_share.Base.{
  ℕ, ◌+◌, ◌≡◌, ◌≢◌, refl, ap, ◌⊎◌, none, some, inl, inr, false, List, [], ◌∷◌, ◌==◌, erase_first,
  map, arith,
}
use ndn_share.Cs.Policy.{occurrences, is_one, PolicyLaws}
use ndn_share.Cs.Policy.Counting.{occurrences-append, occurrences-erase_first}
use ndn_share.Cs.Lru.{insert_to_queue, evict_front, lru_policy}

map_self : (xs : List ℕ) → map (λ x. x) xs ≡ xs
map_self [] = refl
map_self (x ∷ xs) = rw (map_self xs)

relocated :
    (x id : ℕ) (queue : List ℕ)
    → occurrences id queue ≢ 0
    → occurrences x (insert_to_queue id false queue) ≡ occurrences x queue
unfolding insert_to_queue
relocated x id queue h =
    let e = occurrences-erase_first (λ y. y) x id queue (rw (map_self queue) h) in
    let same = map_self (erase_first (λ y. y == id) queue) in
    omega (
      arith,
      e,
      ap (occurrences x) (map_self queue),
      ap (occurrences x) same,
      occurrences-append x (erase_first (λ y. y == id) queue) (id ∷ []),
    )

evict_front_lem :
    (queue : List ℕ)
    → ((evict_front queue ≡ none) × (queue ≡ []))
      ⊎ ((id : ℕ) × (rest : List ℕ) × (evict_front queue ≡ some (id, rest))
          × ((x : ℕ) → occurrences x queue ≡ is_one x id + occurrences x rest))
unfolding evict_front
evict_front_lem [] = inl (refl, refl)
evict_front_lem (id ∷ rest) = inr (id, rest, refl, λ x. refl)

pub lru_policy-laws : {Name : Type 0} → PolicyLaws (lru_policy {Name = Name})
unfolding lru_policy evict_front insert_to_queue
lru_policy-laws = record {
  tracked = λ queue. queue;
  tracked-empty = refl;
  tracked-after_insert = λ now e queue x. omega (arith, occurrences-append x queue (e.id ∷ []));
  tracked-after_refresh = λ now e queue x h. relocated x e.id queue h;
  tracked-before_use = λ now e queue x h. relocated x e.id queue h;
  tracked-timer_fires = λ id queue x h. refl;
  tracked-evict_one = evict_front_lem;
}
