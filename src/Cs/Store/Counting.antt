-- ===== src/Cs/Store/Counting.antt =====
-- How often an identity stands in the table of the Content Store.
use ndn_share.Base.{
  ℕ, ◌+◌, ◌≡◌, refl, inl, inr, some, Bool-cases, List, [], ◌∷◌, map, length, arith,
}
use ndn_share.Packet.{Data}
use ndn_share.Cs.Entry.{CsEntry}
use ndn_share.Cs.Order.{CsEnv, id_of, is_eq, compare_data_with_data, find_same, insert_sorted}
use ndn_share.Cs.Policy.{occurrences, is_one}
use ndn_share.Cs.Store.{replace_same}

module _ {Name : Type 0} where
  abbrev pub ids : List (CsEntry Name) → List ℕ
  ids es = map id_of es

  pub occurrences-replace_same :
      (env : CsEnv Name) (packet : Data Name) (x : ℕ) (old new : CsEntry Name)
      → (es : List (CsEntry Name)) → find_same env es packet ≡ some old
      → new.id ≡ old.id
      → (occurrences x (ids (replace_same env packet new es)) ≡ occurrences x (ids es))
        × (length (replace_same env packet new es) ≡ length es)
  unfolding replace_same find_same
  occurrences-replace_same env packet x old new [] found same = (refl, refl)
  occurrences-replace_same env packet x old new (e ∷ es) found same =
      elim (Bool-cases (is_eq (compare_data_with_data env e.packet packet))) [
        | inl hit ↦
            let here : e ≡ old = ground (arith, hit, found) in
            rw (hit, replace_same) (rw (same, ← here) refl, refl)
        | inr miss ↦
            let (a, b) =
              occurrences-replace_same env packet x old new es (ground (arith, miss, found)) same in
            rw (miss, replace_same) (omega (arith, a), omega (arith, b))
      ]

  pub occurrences-insert_sorted :
      (env : CsEnv Name) (x : ℕ) (new : CsEntry Name) (es : List (CsEntry Name))
      → occurrences x (ids (insert_sorted env new es)) ≡ is_one x new.id + occurrences x (ids es)
  unfolding insert_sorted
  occurrences-insert_sorted env x new [] = refl
  occurrences-insert_sorted env x new (e ∷ es) =
      let rest = occurrences-insert_sorted env x new es in ground (arith, rest)
