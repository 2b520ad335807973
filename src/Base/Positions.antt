-- ===== src/Base/Positions.antt =====
-- Positions in a list, and in the part of it between two positions.
use mathlib.Core.Bool.{Bool, true, false}
use mathlib.Core.List.{List, [], ◌∷◌}
use mathlib.Core.Logic.{inl, inr}
use mathlib.Core.Option.{none, some}
use mathlib.Core.Path.{◌≡◌, refl, ap, ◌∙◌}
use Prim.Native.Nat.{ℕ, zero, suc, ◌+◌, ◌≤◌, ◌<◌}
use native.Mathlib.Omega.{arith}
use ndn_share.Base.Tests.{Bool-cases, ltb, if◌then◌else◌}
use ndn_share.Base.Lists.{length, get_elem?, take, drop}
use ndn_share.Base.Algorithm.{find_if}

module _ {A : Type 0} where
  pub get_elem?-take :
      (n i : ℕ) (xs : List A) → get_elem? (take n xs) i ≡ (if ltb i n then get_elem? xs i else none)
  get_elem?-take zero i xs = ground arith
  get_elem?-take (suc n) i [] = ground arith
  get_elem?-take (suc n) zero (x ∷ xs) = ground arith
  get_elem?-take (suc n) (suc i) (x ∷ xs) = ground (arith, get_elem?-take n i xs)

  pub get_elem?-drop : (n i : ℕ) (xs : List A) → get_elem? (drop n xs) i ≡ get_elem? xs (n + i)
  get_elem?-drop zero i xs = ap (get_elem? xs) (omega arith)
  get_elem?-drop (suc n) i [] = refl
  get_elem?-drop (suc n) i (x ∷ xs) =
      let e : suc (n + i) ≡ suc n + i = omega arith in
      get_elem?-drop n i xs ∙ ap (get_elem? (x ∷ xs)) e

  pub get_elem?-length : (i : ℕ) (xs : List A) → i < length xs → (a : A) × (get_elem? xs i ≡ some a)
  get_elem?-length i [] h = absurd (omega arith)
  get_elem?-length zero (x ∷ xs) h = (x, refl)
  get_elem?-length (suc i) (x ∷ xs) h = get_elem?-length i xs (omega arith)

  pub get_elem?-some : (i : ℕ) (xs : List A) (a : A) → get_elem? xs i ≡ some a → i < length xs
  get_elem?-some i [] a h = absurd (cc)
  get_elem?-some zero (x ∷ xs) a h = omega arith
  get_elem?-some (suc i) (x ∷ xs) a h = omega (arith, get_elem?-some i xs a h)

  -- An element at a position in [first, last).
  pub record Between (first last : ℕ) (xs : List A) (a : A) : Type 0 where
    pub position : ℕ
    pub from : first ≤ position
    pub before : position < last
    pub is_at : get_elem? xs position ≡ some a

  pub find_if-position :
      (p : A → Bool) (xs : List A) (a : A)
      → find_if p xs ≡ some a
      → (p a ≡ true) × ((i : ℕ) × (get_elem? xs i ≡ some a))
  find_if-position p [] a h = absurd (cc)
  find_if-position p (x ∷ xs) a h = elim (Bool-cases (p x)) [
    | inl e ↦ let same : x ≡ a = ground (arith, h, e) in (rw (← same) e, (zero, ap some same))
    | inr e ↦
        let (holds, (i, is_at)) = find_if-position p xs a (ground (arith, h, e)) in
        (holds, (suc i, is_at))
  ]

  pub find_if-none :
      (p : A → Bool) (xs : List A) (i : ℕ) (a : A)
      → find_if p xs ≡ none
      → get_elem? xs i ≡ some a
      → p a ≡ false
  find_if-none p [] i a h is_at = absurd (cc)
  find_if-none p (x ∷ xs) zero a h is_at = ground arith
  find_if-none p (x ∷ xs) (suc i) a h is_at = find_if-none p xs i a (ground arith) is_at
