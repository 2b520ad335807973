-- ===== src/Base/Assoc.antt =====
-- std::map as an association list over keys with a decidable equality.
use mathlib.Core.List.{List, [], ◌∷◌}
use mathlib.Core.Logic.{ite, if_pos, if_neg}
use mathlib.Core.Option.{Option, none, some}
use mathlib.Core.Path.{◌≡◌, refl, subst}
use native.Mathlib.Omega.{arith}

-- Every value of the map satisfies `P`.
abbrev pub AllValues {κ} : {K V : Type 0} → (V → Type κ) → List (K × V) → Type κ
AllValues P [] = Unit
AllValues P ((k, v) ∷ m) = P v × AllValues P m

module _ {K V : Type 0} (dec : Discrete K) where
  unfoldable pub lookup : K → List (K × V) → Option V
  lookup k [] = none
  lookup k ((j, v) ∷ m) = ite (dec j k) (some v) (lookup k m)

  unfoldable pub insert : K → V → List (K × V) → List (K × V)
  insert k v [] = (k, v) ∷ []
  insert k v ((j, w) ∷ m) = ite (dec j k) ((k, v) ∷ m) ((j, w) ∷ insert k v m)

  unfoldable pub remove : K → List (K × V) → List (K × V)
  remove k [] = []
  remove k ((j, w) ∷ m) = ite (dec j k) (remove k m) ((j, w) ∷ remove k m)

  pub lookup-insert :
      (k j : K) (v : V) (m : List (K × V))
      → lookup j (insert k v m) ≡ ite (dec k j) (some v) (lookup j m)
  unfolding lookup insert
  lookup-insert k j v [] = refl
  lookup-insert k j v ((i, w) ∷ m) = ground (arith, lookup-insert k j v m)

  pub lookup-remove :
      (k j : K) (m : List (K × V)) → lookup j (remove k m) ≡ ite (dec k j) none (lookup j m)
  unfolding lookup remove
  lookup-remove k j [] = ground arith
  lookup-remove k j ((i, w) ∷ m) = ground (arith, lookup-remove k j m)

  pub lookup-insert_self : (k : K) (v : V) (m : List (K × V)) → lookup k (insert k v m) ≡ some v
  lookup-insert_self k v m = ground (arith, lookup-insert k k v m)

  pub lookup-remove_self : (k : K) (m : List (K × V)) → lookup k (remove k m) ≡ none
  lookup-remove_self k m = ground (arith, lookup-remove k k m)

  module _ {κ} (P : V → Type κ) where
    pub AllValues-insert :
        (k : K) (v : V) (m : List (K × V)) → P v → AllValues P m → AllValues P (insert k v m)
    unfolding insert
    AllValues-insert k v [] h a = (h, tt)
    AllValues-insert k v ((j, w) ∷ m) h a = elim (dec j k) [
      | yes e ↦ rw (if_pos _ e) (h, a.1)
      | no e ↦ rw (if_neg _ e) (a.0, AllValues-insert k v m h a.1)
    ]

    pub AllValues-remove : (k : K) (m : List (K × V)) → AllValues P m → AllValues P (remove k m)
    unfolding remove
    AllValues-remove k [] a = tt
    AllValues-remove k ((j, w) ∷ m) a = elim (dec j k) [
      | yes e ↦ rw (if_pos _ e) (AllValues-remove k m a.1)
      | no e ↦ rw (if_neg _ e) (a.0, AllValues-remove k m a.1)
    ]

    pub AllValues-lookup :
        (k : K) (m : List (K × V)) {v : V} → AllValues P m → lookup k m ≡ some v → P v
    unfolding lookup
    AllValues-lookup k [] a h = absurd (cc)
    AllValues-lookup k ((j, w) ∷ m) {v} a h = elim (dec j k) [
      | yes e ↦ subst P (ground arith) a.0
      | no e ↦ AllValues-lookup k m a.1 (ground arith)
    ]
