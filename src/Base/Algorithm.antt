-- ===== src/Base/Algorithm.antt =====
-- The algorithms of <algorithm> that the source calls, over lists.
use mathlib.Core.Bool.{Bool, false, ◌||◌, not}
use mathlib.Core.List.{List, [], ◌∷◌}
use mathlib.Core.Option.{Option, none, some}
use ndn_share.Base.Tests.{if◌then◌else◌}

module _ {ℓ} {A : Type ℓ} where
  -- std::find_if; `none` is the end iterator.
  abbrev pub find_if : (A → Bool) → List A → Option A
  find_if p [] = none
  find_if p (x ∷ xs) = if p x then some x else find_if p xs

  -- std::any_of and std::none_of.
  abbrev pub any_of : (A → Bool) → List A → Bool
  any_of p [] = false
  any_of p (x ∷ xs) = p x || any_of p xs

  abbrev pub none_of : (A → Bool) → List A → Bool
  none_of p xs = not (any_of p xs)

  -- std::max_element: the first of the elements than which no other is greater.
  max_from : (A → A → Bool) → A → List A → A
  max_from lt best [] = best
  max_from lt best (x ∷ xs) = max_from lt (if lt best x then x else best) xs

  unfoldable pub max_element : (A → A → Bool) → List A → Option A
  unfolding max_from
  max_element lt [] = none
  max_element lt (x ∷ xs) = some (max_from lt x xs)

  -- The elements that pass the test, in order.
  abbrev pub keep_if : (A → Bool) → List A → List A
  keep_if p [] = []
  keep_if p (x ∷ xs) = if p x then x ∷ keep_if p xs else keep_if p xs

  -- list.erase(find_if(...)): drops the first element that passes the test.
  abbrev pub erase_first : (A → Bool) → List A → List A
  erase_first p [] = []
  erase_first p (x ∷ xs) = if p x then xs else x ∷ erase_first p xs

  -- The element that std::find_if finds is updated in place; `none` where there is none.
  unfoldable pub update_first : (A → Bool) → (A → A) → List A → Option (List A)
  update_first p f [] = none
  update_first p f (x ∷ xs) =
      if p x
      then some (f x ∷ xs)
      else elim (update_first p f xs) [ none ↦ none | some ys ↦ some (x ∷ ys) ]
