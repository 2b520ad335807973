-- ===== src/NameTree/Hashes.antt =====
-- computeHash and computeHashes of table/name-tree-hashtable.cpp. A name is the list of its components,
-- and the hash of a component (CityHash) is a parameter. A negative prefixLen, which stands for the whole
-- name, is the length of the name here.
use Prim.Native.Nat.{bit_xor}
use mathlib.Core.List.{List-discrete}
use ndn_share.Base.{
  ℕ_discrete, ℕ, zero, suc, ◌≤◌, ◌≡◌, refl, some, List, [], ◌∷◌, length, get_elem?, take, arith,
}

abbrev pub Component : Type 0
Component = ℕ

abbrev pub names_discrete : Discrete (List Component)
names_discrete = List-discrete ℕ_discrete

module _ (hash : Component → ℕ) where
  unfoldable pub hash_from : ℕ → List Component → ℕ
  hash_from h [] = h
  hash_from h (comp ∷ name) = hash_from (bit_xor h (hash comp)) name

  unfoldable pub compute_hash : List Component → (prefix_len : ℕ) → ℕ
  unfolding hash_from
  compute_hash name prefix_len = hash_from 0 (take prefix_len name)

  unfoldable pub hashes_from : ℕ → List Component → List ℕ
  hashes_from h [] = []
  hashes_from h (comp ∷ name) = let h' = bit_xor h (hash comp) in h' ∷ hashes_from h' name

  unfoldable pub compute_hashes : List Component → List ℕ
  unfolding hashes_from
  compute_hashes name = 0 ∷ hashes_from 0 name

  hashes_from-get :
      (h : ℕ) (name : List Component) (prefix_len : ℕ)
      → prefix_len ≤ length name
      → get_elem? (h ∷ hashes_from h name) prefix_len ≡ some (hash_from h (take prefix_len name))
  unfolding hash_from hashes_from
  hashes_from-get h name zero le = refl
  hashes_from-get h [] (suc n) le = absurd (omega arith)
  hashes_from-get h (comp ∷ name) (suc n) le =
      hashes_from-get (bit_xor h (hash comp)) name n (omega arith)

  -- The sequence of computeHashes has, at every prefix length of the name, the hash that computeHash
  -- computes of that prefix.
  pub compute_hashes-compute_hash :
      (name : List Component) (prefix_len : ℕ)
      → prefix_len ≤ length name
      → get_elem? (compute_hashes name) prefix_len ≡ some (compute_hash name prefix_len)
  unfolding compute_hash compute_hashes
  compute_hashes-compute_hash name prefix_len le = hashes_from-get 0 name prefix_len le
