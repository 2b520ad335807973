-- ===== src/Base/Search.antt =====
-- Searches, updates and deletions by a test, in a list.
use mathlib.Core.Bool.{Bool, true, false}
use mathlib.Core.List.{List, [], ◌∷◌}
use mathlib.Core.Logic.{◌⊎◌, inl, inr}
use mathlib.Core.Option.{none, some}
use mathlib.Core.Path.{◌≡◌, refl, ap}
use ndn_share.Base.Tests.{Bool-cases, if◌then◌else◌}
use ndn_share.Base.Algorithm.{find_if, update_first, erase_first}

-- At most one element passes each of the tests of a family, as no two have the same key.
module _ {ℓ} {A : Type ℓ} where
  -- `update_first` changes the element that is found, and no search that this one's test excludes.
  pub record Updated (p : A → Bool) (f : A → A) (xs ys : List A) : Type ℓ where
    pub old : A
    pub was_found : find_if p xs ≡ some old
    pub passes : p old ≡ true
    pub is_found : p (f old) ≡ true → find_if p ys ≡ some (f old)
    pub others : (q : A → Bool) → q old ≡ false → q (f old) ≡ false → find_if q ys ≡ find_if q xs

  pub update_first_cases :
      (p : A → Bool) (f : A → A) (xs : List A)
      → ((find_if p xs ≡ none) × (update_first p f xs ≡ none))
        ⊎ ((ys : List A) × (update_first p f xs ≡ some ys) × Updated p f xs ys)
  unfolding update_first
  update_first_cases p f [] = inl (refl, refl)
  update_first_cases p f (x ∷ xs) = elim (Bool-cases (p x)) [
    | inl e ↦ inr (
      f x ∷ xs,
      rw e,
      record {
        old = x;
        was_found = rw e;
        passes = e;
        is_found = λ h. rw h;
        others = λ q a b. rw (a, b);
      },
    )
    | inr e ↦ elim (update_first_cases p f xs) [
      | inl (a, b) ↦ inl (rw e a, rw (e, b))
      | inr (ys, b, u) ↦ inr (
        x ∷ ys,
        rw (e, b),
        record {
          old = u.old;
          was_found = rw e u.was_found;
          passes = u.passes;
          is_found = λ h. rw e (u.is_found h);
          others = λ q c d. ap (λ r. if q x then some x else r) (u.others q c d);
        },
      )
    ]
  ]

  -- Deleting the first element that passes `p` hides nothing from a test that excludes `p`.
  pub find_if-erase_first_other :
      (p q : A → Bool) (xs : List A)
      → ((x : A) → p x ≡ true → q x ≡ false)
      → find_if q (erase_first p xs) ≡ find_if q xs
  find_if-erase_first_other p q [] h = refl
  find_if-erase_first_other p q (x ∷ xs) h = elim (Bool-cases (p x)) [
    | inl e ↦ rw (e, h x e)
    | inr e ↦ rw e (ap (λ r. if q x then some x else r) (find_if-erase_first_other p q xs h))
  ]
