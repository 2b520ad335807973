-- ===== src/Tests/Cs.antt =====
-- A Content Store at concrete packets, whose names have at most two components.
use Prim.Native.Nat.{compare, Ordering}
use ndn_share.Base.{
  ℕ, zero, suc, ◌≡◌, refl, inl, inr, Bool, true, false, Option, none, some, List, [], ◌∷◌,
  if◌then◌else◌, get_elem?, pos, Bool-cases, Option-cases, arith,
}
use ndn_share.Cs.Entry.{CsEntry}
use ndn_share.Cs.Order.{
  CsEnv, then_compare, compare_query_with_data, is_before, lower_bound, compare_data_with_data,
}
use ndn_share.Cs.PriorityFifo.{
  queue_stale, queue_fifo, EntryInfo, evict_one, detach_queue, priority_fifo_policy,
}
use ndn_share.Cs.PriorityFifo.Laws.{priority_fifo_policy-laws}
use ndn_share.Cs.PriorityFifo.Eviction.{IsVictim, evict_one-IsVictim}
use ndn_share.Cs.Store.{Cs, init, insert}
use ndn_share.Cs.Store.Ordered.{OrderLaws, IsOrdered}
use ndn_share.Cs.Store.LowerBound.{FindLastLaws, SearchLaws, IsUnderName}
use ndn_share.Cs.Store.Match.{IsDone, last-IsUnder, find_rightmost-IsDone}
use ndn_share.Cs.Store.Answer.{IsValid}
use ndn_share.Cs.Store.Run.{begin, then_step, data_inserted, Run-IsValid}
use ndn_share.Packet.{Interest}

find_last : {A : Type 0} → (A → Bool) → List A → Option A
find_last p [] = none
find_last p (x ∷ xs) = elim (find_last p xs) [
  | some y ↦ some y
  | none ↦ if p x then some x else none
]

find_last-some :
    {A : Type 0} (p : A → Bool) (xs : List A) (a : A)
    → find_last p xs ≡ some a
    → (p a ≡ true) × ((i : ℕ) × (get_elem? xs i ≡ some a))
unfolding find_last
find_last-some p [] a h = absurd (cc)
find_last-some p (x ∷ xs) a h = elim (Option-cases (find_last p xs)) [
  | inr (y, e) ↦
      let same : y ≡ a = ground (arith, h, e) in
      let (holds, (i, is_at)) = find_last-some p xs y e in rw (← same) (holds, (suc i, is_at))
  | inl e ↦ elim (Bool-cases (p x)) [
    | inl holds ↦
        let same : x ≡ a = ground (arith, h, e, holds) in rw (← same) (holds, (zero, refl))
    | inr fails ↦ absurd (ground (arith, h, e, fails))
  ]
]

find_last-none :
    {A : Type 0} (p : A → Bool) (xs : List A) (i : ℕ) (a : A)
    → find_last p xs ≡ none
    → get_elem? xs i ≡ some a
    → p a ≡ false
unfolding find_last
find_last-none p [] i a h is_at = absurd (cc)
find_last-none p (x ∷ xs) zero a h is_at = ground arith
find_last-none p (x ∷ xs) (suc i) a h is_at = find_last-none p xs i a (ground arith) is_at

-- Names of at most two components, the second a digest.
data TestName : Type 0 where
  root : TestName
  one_component : ℕ → TestName
  full_name : ℕ → ℕ → TestName

unfoldable compare_test : TestName → TestName → Ordering
compare_test root root = Ordering.eq
compare_test root (one_component b) = Ordering.lt
compare_test root (full_name b y) = Ordering.lt
compare_test (one_component a) root = Ordering.gt
compare_test (one_component a) (one_component b) = compare a b
compare_test (one_component a) (full_name b y) = then_compare (compare a b) Ordering.lt
compare_test (full_name a x) root = Ordering.gt
compare_test (full_name a x) (one_component b) = then_compare (compare a b) Ordering.gt
compare_test (full_name a x) (full_name b y) = then_compare (compare a b) (compare x y)

unfoldable size_test : TestName → ℕ
size_test root = 0
size_test (one_component a) = 1
size_test (full_name a x) = 2

unfoldable prefix_test : TestName → ℕ → TestName
prefix_test root k = root
prefix_test (one_component a) zero = root
prefix_test (one_component a) (suc k) = one_component a
prefix_test (full_name a x) zero = root
prefix_test (full_name a x) (suc zero) = one_component a
prefix_test (full_name a x) (suc (suc k)) = full_name a x

unfoldable successor_test : TestName → TestName
successor_test root = one_component 0
successor_test (one_component a) = one_component (suc a)
successor_test (full_name a x) = full_name a (suc x)

unfoldable split_test : TestName → Option (TestName × ℕ)
split_test root = none
split_test (one_component a) = none
split_test (full_name a x) = some (one_component a, x)

abbrev cs_env : CsEnv TestName
cs_env = record {
  compare_names = compare_test;
  size = size_test;
  get_prefix = prefix_test;
  get_successor = successor_test;
  split_digest = split_test;
  digest = λ packet. packet.content;
  matches_data = λ i packet. true;
  is_rightmost = λ i. true;
  is_no_cache = λ packet. false;
  find_last_if = find_last;
}

last_laws : FindLastLaws cs_env
last_laws = record { find_last_if-some = find_last-some; find_last_if-none = find_last-none }

search_laws : SearchLaws cs_env
unfolding is_before IsUnderName compare_query_with_data compare_test size_test prefix_test
    successor_test split_test
search_laws = record {
  last_laws = last_laws;
  prefix_first = λ e n. ground arith;
  longer_prefix = λ q e e' z a b c. ground arith;
  successor_last = λ q e z a b c. ground arith;
  successor_after = λ q e a b. ground arith;
  prefix_between = λ q e a. (ground arith, λ b. ground arith);
  empty_prefix = λ q e a. ground arith;
}

order_laws : OrderLaws cs_env
unfolding is_before compare_data_with_data compare_query_with_data compare_test split_test
order_laws = record {
  less-Precedes = λ e e' a q b. ground arith;
  greater-Precedes = λ e e' a b q c. ground arith;
}

abbrev wanted : Interest TestName
wanted = record {
  name = one_component 8;
  selectors = 0;
  nonce = 77;
  lifetime = pos 4_000;
  must_be_fresh = false;
  queried_name = none;
  next_hop_face_id = none;
}

abbrev stored : ℕ → ℕ → CsEntry TestName
stored id name = record {
  id = id;
  packet = record { name = one_component name; content = 5; freshness_period = pos 1_000 };
  is_unsolicited = false;
  stale_time = some 1_000_000_007;
}

abbrev table : List (CsEntry TestName)
table = stored 2 3 ∷ stored 1 8 ∷ []

abbrev two_entries : Cs TestName (List ℕ)
two_entries = record { table = table; last_entry_id = 2; limit = 2; policy = 2 ∷ 1 ∷ [] }

ordered : IsOrdered cs_env table
unfolding is_before compare_query_with_data compare_test split_test
ordered = (((λ q h. ground arith), tt), (tt, tt))

find_rightmost-IsDone_example : IsDone cs_env search_laws 9 wanted table 3 2
unfolding lower_bound is_before compare_query_with_data compare_test size_test successor_test
    split_test
find_rightmost-IsDone_example =
    find_rightmost-IsDone cs_env search_laws 9 wanted table 3 2 2 refl
      (last-IsUnder cs_env search_laws 9 wanted table ordered refl) (omega arith) (omega arith)
      (omega arith) (omega arith)

-- The limit is one, so that the second packet evicts the first.
abbrev one_left : Cs TestName (List EntryInfo)
one_left =
    insert cs_env priority_fifo_policy 7
      (insert cs_env priority_fifo_policy 5 (init priority_fifo_policy 1)
        (record { name = one_component 8; content = 5; freshness_period = pos 1_000 }) false)
      (record { name = one_component 3; content = 5; freshness_period = pos 1_000 }) true

Run-IsValid_example : IsValid cs_env priority_fifo_policy-laws one_left
Run-IsValid_example =
    Run-IsValid cs_env priority_fifo_policy-laws order_laws last_laws
      (then_step (then_step begin (data_inserted 5 _ false)) (data_inserted 7 _ true))

abbrev queues : List EntryInfo
queues =
    record { id = 1; queue_type = queue_fifo; move_stale_event = none }
    ∷ record { id = 2; queue_type = queue_stale; move_stale_event = none }
    ∷ record { id = 3; queue_type = queue_stale; move_stale_event = none }
    ∷ []

evict_one-IsVictim_example :
    (info : EntryInfo) × ((info.id ≡ 2)
      × ((detach_queue 2 queues ≡ detach_queue 2 queues) × IsVictim queues info))
unfolding evict_one
evict_one-IsVictim_example = evict_one-IsVictim queues (detach_queue 2 queues) 2 refl
