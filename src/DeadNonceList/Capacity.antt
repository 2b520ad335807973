-- ===== src/DeadNonceList/Capacity.antt =====
-- The capacity of DeadNonceList, and the size that it allows.
use ndn_share.Base.{
  ℕ, ◌-◌, ◌≤◌, ◌<◌, min, ◌≡◌, inl, inr, Bool-cases, List, [], ◌∷◌, ◌++◌, leb, length, length-append,
  length-drop, arith, some,
}
use ndn_share.DeadNonceList.{
  DeadNonceList, min_capacity, max_capacity, evict_limit, init, evict_entries, add_entry, mark,
  adjusted_capacity, adjust_capacity,
}

abbrev pub InLimits : DeadNonceList → Type 0
InLimits d = (min_capacity ≤ d.capacity) × (d.capacity ≤ max_capacity)

-- Everything that happens to a list.
pub data Event : Type 0 where
  adds : ℕ → Event
  marks : Event
  adjusts : Event

unfoldable pub step : DeadNonceList → Event → DeadNonceList
step d (adds entry) = add_entry d entry
step d marks = mark d
step d adjusts = adjust_capacity d

unfoldable pub run : DeadNonceList → List Event → DeadNonceList
run d [] = d
run d (e ∷ es) = run (step d e) es

adjusted_capacity-limits :
    (d : DeadNonceList)
    → InLimits d
    → (min_capacity ≤ adjusted_capacity d) × (adjusted_capacity d ≤ max_capacity)
unfolding adjusted_capacity
adjusted_capacity-limits d h = ground arith

step-InLimits : (d : DeadNonceList) (e : Event) → InLimits d → InLimits (step d e)
unfolding step add_entry evict_entries mark
step-InLimits d (adds entry) h = ground arith
step-InLimits d marks h = h
step-InLimits d adjusts h = unfold adjust_capacity in ground (arith, adjusted_capacity-limits d h)

run-InLimits : (d : DeadNonceList) (es : List Event) → InLimits d → InLimits (run d es)
unfolding run
run-InLimits d [] h = h
run-InLimits d (e ∷ es) h = run-InLimits (step d e) es (step-InLimits d e h)

-- Whatever happens to a list that the constructor made, its capacity stays within the limits.
pub run-init-InLimits :
    (lifetime : ℕ) (d : DeadNonceList) (es : List Event)
    → init lifetime ≡ some d
    → InLimits (run d es)
unfolding init
run-init-InLimits lifetime d es made = run-InLimits d es (ground (arith, made))

-- An eviction takes the excess over the capacity, up to the limit at once; so it never goes below
-- the capacity, and a list that is not over it loses nothing.
pub length-evict_entries :
    (d : DeadNonceList)
    → length (evict_entries d).queue
      ≡ length d.queue - min (length d.queue - d.capacity) evict_limit
unfolding evict_entries
length-evict_entries d =
    let n = min (length d.queue - d.capacity) evict_limit in
    elim (Bool-cases (leb (length d.queue - d.capacity) 0)) [
      | inl e ↦ rw e (ground arith)
      | inr e ↦ rw e (length-drop n d.queue)
    ]

-- A list within its capacity, which is not 0, stays within it when a nonce is inserted.
pub add_entry-within :
    (d : DeadNonceList) (entry : ℕ)
    → 0 < d.capacity
    → length d.queue ≤ d.capacity
    → length (add_entry d entry).queue ≤ d.capacity
unfolding add_entry
add_entry-within d entry pos within =
    let pushed = record d { queue = d.queue ++ entry ∷ [] } in
    omega (arith, length-evict_entries pushed, length-append d.queue (entry ∷ []))
