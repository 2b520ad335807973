-- ===== src/DeadNonceList.antt =====
-- table/dead-nonce-list.cpp. The index is the sequence of its entries, oldest first; the hash of a
-- name and a nonce (makeEntry) is a parameter, and the two periodic events are operations.
pub mod Retention
pub mod Capacity
use ndn_share.Base.{
  ℕ, ◌+◌, ◌-◌, ◌*◌, ◌/◌, ◌≤◌, min, max, Bool, true, false, Option, none, some, List, [], ◌∷◌, ◌++◌,
  ltb, leb, ◌==◌, if◌then◌else◌, length, drop, any_of, none_of, replicate,
}

abbrev pub min_lifetime : ℕ
min_lifetime = 1_000_000

abbrev pub initial_capacity : ℕ
initial_capacity = 128

abbrev pub min_capacity : ℕ
min_capacity = 8

abbrev pub max_capacity : ℕ
max_capacity = 16_777_216

abbrev pub mark_entry : ℕ
mark_entry = 0

abbrev pub expected_mark_count : ℕ
expected_mark_count = 5

abbrev pub evict_limit : ℕ
evict_limit = 64

pub record DeadNonceList : Type 0 where
  pub lifetime : ℕ
  pub queue : List ℕ
  pub capacity : ℕ
  pub actual_mark_counts : List ℕ
  pub mark_interval : ℕ
  pub adjust_capacity_interval : ℕ

-- The constructor; `none` is std::invalid_argument.
unfoldable pub init : (lifetime : ℕ) → Option DeadNonceList
init lifetime =
    if ltb lifetime min_lifetime
    then none
    else some (record {
      lifetime = lifetime;
      queue = replicate expected_mark_count mark_entry;
      capacity = initial_capacity;
      actual_mark_counts = [];
      mark_interval = lifetime / expected_mark_count;
      adjust_capacity_interval = lifetime;
    })

-- m_ht.count(MARK)
unfoldable pub count_in : ℕ → List ℕ → ℕ
count_in x [] = 0
count_in x (y ∷ ys) = (if y == x then 1 else 0) + count_in x ys

unfoldable pub count_marks : DeadNonceList → ℕ
unfolding count_in
count_marks d = count_in mark_entry d.queue

unfoldable pub size : DeadNonceList → ℕ
unfolding count_marks
size d = length d.queue - count_marks d

unfoldable pub has_entry : DeadNonceList → ℕ → Bool
has_entry d entry = any_of (λ x. x == entry) d.queue

-- `nOverCapacity` is signed in the source; where it would be negative nothing is erased.
unfoldable pub evict_entries : DeadNonceList → DeadNonceList
evict_entries d =
    let n_over_capacity = length d.queue - d.capacity in
    if leb n_over_capacity 0
    then d
    else record d { queue = drop (min n_over_capacity evict_limit) d.queue }

unfoldable pub add_entry : DeadNonceList → ℕ → DeadNonceList
unfolding evict_entries
add_entry d entry = evict_entries (record d { queue = d.queue ++ entry ∷ [] })

-- A MARK is inserted, and no entry evicted.
unfoldable pub mark : DeadNonceList → DeadNonceList
unfolding count_marks
mark d =
    let marked = record d { queue = d.queue ++ mark_entry ∷ [] } in
    record marked { actual_mark_counts = count_marks marked ∷ d.actual_mark_counts }

-- CAPACITY_DOWN is 0.9 and CAPACITY_UP is 1.2; up to MAX_CAPACITY the products of doubles truncate
-- to these quotients. The two ranges tell whether all counts are above, or all below, the expected.
unfoldable pub adjusted_capacity : DeadNonceList → ℕ
adjusted_capacity d =
    if none_of (λ count. leb count expected_mark_count) d.actual_mark_counts
    then max min_capacity (d.capacity * 9 / 10)
    else if none_of (λ count. leb expected_mark_count count) d.actual_mark_counts
    then min max_capacity (d.capacity * 12 / 10)
    else d.capacity

unfoldable pub adjust_capacity : DeadNonceList → DeadNonceList
unfolding adjusted_capacity evict_entries
adjust_capacity d =
    evict_entries (record d { capacity = adjusted_capacity d; actual_mark_counts = [] })

module _ {Name : Type 0} (make_entry : Name → ℕ → ℕ) where
  unfoldable pub has : DeadNonceList → Name → ℕ → Bool
  unfolding has_entry
  has d name nonce = has_entry d (make_entry name nonce)

  unfoldable pub add : DeadNonceList → Name → ℕ → DeadNonceList
  unfolding add_entry
  add d name nonce = add_entry d (make_entry name nonce)
