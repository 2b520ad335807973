-- ===== src/Cs/Store.antt =====
-- table/cs.cpp: the Content Store, over a replacement policy. What the source returns through the
-- callbacks of find is a result.
pub mod Counting
pub mod Bounded
pub mod Ordered
pub mod Positions
pub mod LowerBound
pub mod Find
pub mod Match
pub mod Answer
pub mod Run
use ndn_share.Base.{
  ℕ, zero, suc, ◌+◌, ◌-◌, Bool, true, false, ◌&&◌, not, Option, none, some, List, [], ◌∷◌, leb,
  ◌==◌, if◌then◌else◌, find_if, length, get_elem?,
}
use ndn_share.Packet.{Interest, Data}
use ndn_share.Cs.Entry.{CsEntry, entry_of_data, update_stale_time, unset_unsolicited, can_satisfy}
use ndn_share.Cs.Order.{
  CsEnv, is_eq, compare_data_with_data, lower_bound, find_same, insert_sorted, id_of, erase_entry,
  range,
}
use ndn_share.Cs.Policy.{Policy}

-- `last_entry_id` is the identity of the newest entry.
pub record Cs (Name P : Type 0) : Type 0 where
  pub table : List (CsEntry Name)
  pub last_entry_id : ℕ
  pub limit : ℕ
  pub policy : P

module _ {Name P : Type 0} (policy : Policy Name P) where
  -- The loop of evictEntries. Each round erases an entry, so that the fuel is the size of the table;
  -- a policy that has nothing to evict is undefined in the source.
  unfoldable pub evict_rounds : (fuel : ℕ) → Cs Name P → Cs Name P
  evict_rounds zero cs = cs
  evict_rounds (suc fuel) cs = elim (leb (length cs.table) cs.limit) [
    | true ↦ cs
    | false ↦ elim (policy.evict_one cs.policy) [
      | none ↦ cs
      | some (id, p) ↦ evict_rounds fuel (record cs { table = erase_entry id cs.table; policy = p })
    ]
  ]

  unfoldable pub evict_entries : Cs Name P → Cs Name P
  unfolding evict_rounds
  evict_entries cs = evict_rounds (length cs.table) cs

  unfoldable pub set_limit : Cs Name P → ℕ → Cs Name P
  unfolding evict_entries
  set_limit cs n_max_packets = evict_entries (record cs { limit = n_max_packets })

  -- A timer of the policy for an entry; the timer of an entry that is gone is cancelled.
  unfoldable pub timer_fires : Cs Name P → (id : ℕ) → Cs Name P
  timer_fires cs id = record cs { policy = policy.timer_fires id cs.policy }

  -- The constructor.
  unfoldable pub init : (n_max_packets : ℕ) → Cs Name P
  unfolding set_limit
  init n_max_packets =
      set_limit (record { table = []; last_entry_id = 0; limit = 0; policy = policy.empty })
        n_max_packets

  -- setPolicy, where this is the new policy.
  unfoldable pub set_policy : {Q : Type 0} → Cs Name Q → Cs Name P
  unfolding set_limit
  set_policy cs =
      set_limit
        (record {
          table = cs.table;
          last_entry_id = cs.last_entry_id;
          limit = 0;
          policy = policy.empty;
        })
        cs.limit

module _ {Name : Type 0} where
  -- What insert does to an entry that is there.
  unfoldable pub refresh : (now : ℕ) → (is_unsolicited : Bool) → CsEntry Name → CsEntry Name
  unfolding update_stale_time unset_unsolicited
  refresh now is_unsolicited e =
      let updated = update_stale_time now e in
      if updated.is_unsolicited && not is_unsolicited
      then unset_unsolicited now updated
      else updated

  -- The entry that find_same finds is changed in its place.
  unfoldable pub replace_same :
      CsEnv Name → Data Name → (new : CsEntry Name) → List (CsEntry Name) → List (CsEntry Name)
  unfolding compare_data_with_data
  replace_same env packet new [] = []
  replace_same env packet new (e ∷ es) =
      if is_eq (compare_data_with_data env e.packet packet)
      then new ∷ es
      else e ∷ replace_same env packet new es

module _ {Name P : Type 0} (env : CsEnv Name) (policy : Policy Name P) (now : ℕ) where
  -- The two ends of insert, for an entry that is there and for a new one.
  unfoldable pub refresh_old :
      Cs Name P → Data Name → (old : CsEntry Name) → (is_unsolicited : Bool) → Cs Name P
  unfolding refresh replace_same
  refresh_old cs packet old is_unsolicited =
      let e = refresh now is_unsolicited old in
      record cs {
        table = replace_same env packet e cs.table;
        policy = policy.after_refresh now e cs.policy;
      }

  unfoldable pub add_new : Cs Name P → Data Name → (is_unsolicited : Bool) → Cs Name P
  unfolding update_stale_time entry_of_data insert_sorted
  add_new cs packet is_unsolicited =
      let e =
        update_stale_time now (entry_of_data (cs.last_entry_id + 1) now packet is_unsolicited) in
      record cs {
        table = insert_sorted env e cs.table;
        last_entry_id = cs.last_entry_id + 1;
        policy = policy.after_insert now e cs.policy;
      }

  unfoldable pub insert : Cs Name P → Data Name → (is_unsolicited : Bool) → Cs Name P
  unfolding find_same refresh_old add_new evict_entries
  insert cs packet is_unsolicited =
      if cs.limit == 0
      then cs
      else if env.is_no_cache packet
      then cs
      else elim (find_same env cs.table packet) [
        | some old ↦ refresh_old cs packet old is_unsolicited
        | none ↦ evict_entries policy (add_new cs packet is_unsolicited)
      ]

module _ {Name : Type 0} where
  -- std::prev(right), which is undefined at the beginning.
  abbrev pub prev_of : (right : ℕ) → List (CsEntry Name) → Option (CsEntry Name)
  prev_of zero es = none
  prev_of (suc i) es = get_elem? es i

module _ {Name : Type 0} (env : CsEnv Name) (now : ℕ) (interest : Interest Name) where
  unfoldable pub satisfies : CsEntry Name → Bool
  unfolding can_satisfy
  satisfies e = can_satisfy env.matches_data now interest e

  unfoldable pub find_leftmost : List (CsEntry Name) → Option (CsEntry Name)
  unfolding satisfies
  find_leftmost es = find_if satisfies es

  -- The loop of findRightmost over `right`; `none` is that the fuel was too little, or that the loop
  -- went on before the beginning, which is undefined.
  unfoldable pub find_rightmost :
      (fuel : ℕ) → List (CsEntry Name) → (first right : ℕ) → Option (Option (CsEntry Name))
  unfolding satisfies find_leftmost lower_bound
  find_rightmost zero es first right = none
  find_rightmost (suc fuel) es first right = elim (right == first) [
    | true ↦ some none
    | false ↦ elim (prev_of right es) [
      | none ↦ none
      | some prev ↦ elim (env.size prev.packet.name == env.size interest.name) [
        | true ↦ some (env.find_last_if satisfies (range first right es))
        | false ↦
            let left =
              lower_bound env (env.get_prefix prev.packet.name (env.size interest.name + 1)) es in
            elim (find_leftmost (range left right es)) [
              | some e ↦ some (some e)
              | none ↦ find_rightmost fuel es first left
            ]
      ]
    ]
  ]

  -- The bounds of find, and the search between them.
  unfoldable pub find_bounds : List (CsEntry Name) → ℕ × ℕ
  unfolding lower_bound
  find_bounds es = (
    lower_bound env interest.name es,
    if env.size interest.name == 0
        then length es
        else lower_bound env (env.get_successor interest.name) es,
  )

  unfoldable pub find_match : List (CsEntry Name) → Option (Option (CsEntry Name))
  unfolding find_bounds find_leftmost find_rightmost
  find_match es =
      let (first, last) = find_bounds es in
      if env.is_rightmost interest
      then find_rightmost (suc (length es)) es first last
      else some (find_leftmost (range first last es))

module _ {Name P : Type 0} (env : CsEnv Name) (policy : Policy Name P) (now : ℕ) where
  unfoldable pub find : Cs Name P → Interest Name → Cs Name P × Option (Data Name)
  unfolding find_match
  find cs interest = elim (find_match env now interest cs.table) [
    | none ↦ (cs, none)
    | some none ↦ (cs, none)
    | some (some e) ↦ (record cs { policy = policy.before_use now e cs.policy }, some e.packet)
  ]
