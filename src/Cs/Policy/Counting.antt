-- ===== src/Cs/Policy/Counting.antt =====
-- How often a number stands in a list of keys, where elements are put in and erased.
use ndn_share.Base.{
  ℕ, suc, ◌+◌, ◌≡◌, ◌≢◌, refl, inl, inr, Bool, Bool-cases, List, [], ◌∷◌, ◌++◌, ◌==◌, map, length,
  find_if, some, erase_first, arith,
}
use ndn_share.Cs.Policy.{occurrences, is_one}

pub occurrences-append :
    (x : ℕ) (xs ys : List ℕ) → occurrences x (xs ++ ys) ≡ occurrences x xs + occurrences x ys
occurrences-append x [] ys = omega arith
occurrences-append x (y ∷ xs) ys = omega (arith, occurrences-append x xs ys)

module _ {A : Type 0} (key : A → ℕ) where
  pub occurrences-erase_first :
      (x id : ℕ) (xs : List A)
      → occurrences id (map key xs) ≢ 0
      → occurrences x (map key xs)
        ≡ is_one x id + occurrences x (map key (erase_first (λ a. key a == id) xs))
  occurrences-erase_first x id [] h = absurd (h refl)
  occurrences-erase_first x id (a ∷ xs) h = elim (Bool-cases (key a == id)) [
    | inl e ↦ rw e (let same : key a ≡ id = ground arith in rw same refl)
    | inr e ↦
        let rest = occurrences-erase_first x id xs (λ none. h (ground (arith, none, e))) in
        rw e (omega (arith, rest))
  ]

  pub length-erase_first :
      (id : ℕ) (xs : List A)
      → occurrences id (map key xs) ≢ 0
      → suc (length (erase_first (λ a. key a == id) xs)) ≡ length xs
  length-erase_first id [] h = absurd (h refl)
  length-erase_first id (a ∷ xs) h = elim (Bool-cases (key a == id)) [
    | inl e ↦ rw e refl
    | inr e ↦ rw e (omega (arith, length-erase_first id xs (λ none. h (ground (arith, none, e)))))
  ]

  pub occurrences-find_if :
      (p : A → Bool) (xs : List A) (a : A)
      → find_if p xs ≡ some a
      → occurrences (key a) (map key xs) ≢ 0
  occurrences-find_if p [] a h = absurd (cc)
  occurrences-find_if p (x ∷ xs) a h = elim (Bool-cases (p x)) [
    | inl e ↦ let same : x ≡ a = ground (arith, h, e) in rw (← same) (λ z. ground arith)
    | inr e ↦
        let rest = occurrences-find_if p xs a (ground (arith, h, e)) in λ z. rest (omega (arith, z))
  ]
