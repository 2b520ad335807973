-- ===== src/Cs/Order.antt =====
-- The order of the Content Store's table (EntryImpl::operator< of table/cs-entry-impl.cpp), and the
-- std::set over it as the list of its entries in that order; an iterator is a position.
use Prim.Native.Nat.{compare, Ordering}
use ndn_share.Base.{
  ℕ, suc, ◌-◌, Bool, true, false, Option, none, some, List, [], ◌∷◌, if◌then◌else◌, find_if,
  erase_first, ◌==◌, take, drop,
}
use ndn_share.Packet.{Data, Interest}
use ndn_share.Cs.Entry.{CsEntry}

-- What the Content Store asks of ndn-cxx: names, with the digest that a full name ends in, and tags
-- and selectors of packets. find_last_if is of the repository's missing core library.
pub record CsEnv (Name : Type 0) : Type 0 where
  pub compare_names : Name → Name → Ordering
  pub size : Name → ℕ
  pub get_prefix : Name → ℕ → Name
  pub get_successor : Name → Name
  pub split_digest : Name → Option (Name × ℕ)
  pub digest : Data Name → ℕ
  pub matches_data : Interest Name → Data Name → Bool
  pub is_rightmost : Interest Name → Bool
  pub is_no_cache : Data Name → Bool
  pub find_last_if : (CsEntry Name → Bool) → List (CsEntry Name) → Option (CsEntry Name)

abbrev pub is_lt : Ordering → Bool
is_lt Ordering.lt = true
is_lt _ = false

abbrev pub is_eq : Ordering → Bool
is_eq Ordering.eq = true
is_eq _ = false

abbrev pub is_gt : Ordering → Bool
is_gt Ordering.gt = true
is_gt _ = false

-- The second comparison counts where the first finds no difference.
abbrev pub then_compare : Ordering → Ordering → Ordering
then_compare Ordering.eq second = second
then_compare first second = first

module _ {Name : Type 0} (env : CsEnv Name) where
  unfoldable pub compare_query_with_data : Name → Data Name → Ordering
  compare_query_with_data query packet = elim (env.split_digest query) [
    | none ↦ then_compare (env.compare_names query packet.name) Ordering.lt
    | some (name, d) ↦
        then_compare (env.compare_names name packet.name) (compare d (env.digest packet))
  ]

  unfoldable pub compare_data_with_data : Data Name → Data Name → Ordering
  compare_data_with_data lhs rhs =
      then_compare (env.compare_names lhs.name rhs.name) (compare (env.digest lhs) (env.digest rhs))

  -- An entry with Data is less than a query.
  unfoldable pub is_before : (query : Name) → CsEntry Name → Bool
  unfolding compare_query_with_data
  is_before query e = is_gt (compare_query_with_data query e.packet)

  unfoldable pub lower_bound : (query : Name) → List (CsEntry Name) → ℕ
  unfolding is_before
  lower_bound query [] = 0
  lower_bound query (e ∷ es) = if is_before query e then suc (lower_bound query es) else 0

  -- std::set::insert finds an equivalent element, or has a place for the new one.
  unfoldable pub find_same : List (CsEntry Name) → Data Name → Option (CsEntry Name)
  unfolding compare_data_with_data
  find_same es packet = find_if (λ e. is_eq (compare_data_with_data e.packet packet)) es

  unfoldable pub insert_sorted : CsEntry Name → List (CsEntry Name) → List (CsEntry Name)
  unfolding compare_data_with_data
  insert_sorted new [] = new ∷ []
  insert_sorted new (e ∷ es) =
      if is_lt (compare_data_with_data e.packet new.packet)
      then e ∷ insert_sorted new es
      else new ∷ e ∷ es

module _ {Name : Type 0} where
  abbrev pub id_of : CsEntry Name → ℕ
  id_of e = e.id

  abbrev pub erase_entry : ℕ → List (CsEntry Name) → List (CsEntry Name)
  erase_entry id es = erase_first (λ e. id_of e == id) es

  -- The elements of [first, last).
  abbrev pub range : (first last : ℕ) → List (CsEntry Name) → List (CsEntry Name)
  range first last es = take (last - first) (drop first es)
