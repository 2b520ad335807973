-- ===== src/Base/Keyed.antt =====
-- A list with at most one element for each key, as the record collections of a PIT entry and the
-- next hops of a FIB entry are, through the operations that the source makes of find_if and erase.
use Prim.Native.Nat.{ℕ}
use mathlib.Core.Bool.{Bool}
use mathlib.Core.List.{List, [], ◌∷◌}
use mathlib.Core.Logic.{◌⊎◌, inl, inr, ◌≢◌}
use mathlib.Core.Option.{none, some}
use mathlib.Core.Path.{◌≡◌, refl, ◌∙◌}
use native.Mathlib.Omega.{arith}
use ndn_share.Base.Tests.{Bool-cases, ◌==◌}
use ndn_share.Base.Algorithm.{find_if, update_first, erase_first}
use ndn_share.Base.Search.{update_first_cases, find_if-erase_first_other}

module _ {A : Type 0} (key : A → ℕ) where
  abbrev pub by_key : ℕ → A → Bool
  by_key k x = key x == k

  abbrev pub OnePerKey : List A → Type 0
  OnePerKey [] = Unit
  OnePerKey (x ∷ xs) = (find_if (by_key (key x)) xs ≡ none) × OnePerKey xs

  -- A deletion may only make a search fail.
  find_if-erase_first-none :
      (j k : ℕ) (xs : List A)
      → find_if (by_key j) xs ≡ none
      → find_if (by_key j) (erase_first (by_key k) xs) ≡ none
  find_if-erase_first-none j k [] h = refl
  find_if-erase_first-none j k (x ∷ xs) h = ground (arith, find_if-erase_first-none j k xs)

  pub erase_first-OnePerKey :
      (k : ℕ) (xs : List A) → OnePerKey xs → OnePerKey (erase_first (by_key k) xs)
  erase_first-OnePerKey k [] u = tt
  erase_first-OnePerKey k (x ∷ xs) u = elim (Bool-cases (key x == k)) [
    | inl e ↦ rw e u.1
    | inr e ↦ rw e (find_if-erase_first-none (key x) k xs u.0, erase_first-OnePerKey k xs u.1)
  ]

  pub find_if-erase_first_self :
      (k : ℕ) (xs : List A) → OnePerKey xs → find_if (by_key k) (erase_first (by_key k) xs) ≡ none
  find_if-erase_first_self k [] u = refl
  find_if-erase_first_self k (x ∷ xs) u = elim (Bool-cases (key x == k)) [
    | inl e ↦ let same : key x ≡ k = ground arith in rw e (rw (← same) u.0)
    | inr e ↦ rw (e, e) (find_if-erase_first_self k xs u.1)
  ]

  pub find_if-erase_first_ne :
      (k j : ℕ) (xs : List A)
      → k ≢ j
      → find_if (by_key j) (erase_first (by_key k) xs) ≡ find_if (by_key j) xs
  find_if-erase_first_ne k j xs ne =
      find_if-erase_first_other (by_key k) (by_key j) xs (λ x e. ground arith)

  module _ (f : A → A) (keeps : (x : A) → key (f x) ≡ key x) where
    -- The update is seen at its key alone.
    pub find_if-update_first :
        (k : ℕ) (xs : List A)
        → ((find_if (by_key k) xs ≡ none) × (update_first (by_key k) f xs ≡ none))
          ⊎ ((old : A) × (ys : List A) × (find_if (by_key k) xs ≡ some old)
              × (update_first (by_key k) f xs ≡ some ys)
              × (find_if (by_key k) ys ≡ some (f old))
              × ((j : ℕ) → k ≢ j → find_if (by_key j) ys ≡ find_if (by_key j) xs))
    find_if-update_first k xs = elim (update_first_cases (by_key k) f xs) [
      | inl h ↦ inl h
      | inr (ys, e, u) ↦ inr (
        u.old,
        ys,
        u.was_found,
        e,
        u.is_found (rw (keeps u.old) u.passes),
        λ j ne.
            u.others (by_key j) (ground (arith, u.passes)) (ground (arith, u.passes, keeps u.old)),
      )
    ]

    pub update_first-OnePerKey :
        (k : ℕ) (xs ys : List A)
        → OnePerKey xs
        → update_first (by_key k) f xs ≡ some ys
        → OnePerKey ys
    unfolding update_first
    update_first-OnePerKey k [] ys u e = cc
    update_first-OnePerKey k (x ∷ xs) ys u e = elim (Bool-cases (key x == k)) [
      | inl hit ↦
          let same : f x ∷ xs ≡ ys = ground (arith, e, hit) in rw (← same) (rw (keeps x) u.0, u.1)
      | inr miss ↦ elim (find_if-update_first k xs) [
        | inl (absent, stuck) ↦ absurd (ground (arith, e, miss, stuck))
        | inr (old, zs, _, stored, _, others) ↦
            let same : x ∷ zs ≡ ys = ground (arith, e, miss, stored) in
            rw (← same)
              (others (key x) (ground arith) ∙ u.0, update_first-OnePerKey k xs zs u.1 stored)
      ]
    ]
