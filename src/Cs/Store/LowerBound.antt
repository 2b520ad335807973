-- ===== src/Cs/Store/LowerBound.antt =====
-- The lower bounds of queries in the table of the Content Store.
use ndn_share.Base.{
  ℕ, zero, suc, ◌+◌, ◌≤◌, ◌<◌, ◌≡◌, refl, inl, inr, Bool, true, false, Bool-cases, none, some, List,
  [], ◌∷◌, ◌==◌, length, get_elem?, arith,
}
use ndn_share.Cs.Entry.{CsEntry}
use ndn_share.Cs.Order.{CsEnv, is_before, lower_bound}
use ndn_share.Cs.Store.Ordered.{Precedes, AllPrecedes, IsOrdered}

module _ {Name : Type 0} (env : CsEnv Name) where
  -- The Data is under the name: it has the digest, if that is a full name, or else the name is a
  -- prefix of its name.
  unfoldable pub IsUnderName : Name → CsEntry Name → Type 0
  IsUnderName q e = elim (env.split_digest q) [
    | none ↦ env.get_prefix e.packet.name (env.size q) ≡ q
    | some (name, d) ↦ (e.packet.name ≡ name) × (env.digest e.packet ≡ d)
  ]

  -- What is relied on of find_last_if.
  pub record FindLastLaws : Type 0 where
    pub find_last_if-some :
        (p : CsEntry Name → Bool) (es : List (CsEntry Name)) (e : CsEntry Name)
        → env.find_last_if p es ≡ some e
        → (p e ≡ true) × ((i : ℕ) × (get_elem? es i ≡ some e))
    pub find_last_if-none :
        (p : CsEntry Name → Bool) (es : List (CsEntry Name)) (i : ℕ) (e : CsEntry Name)
        → env.find_last_if p es ≡ none
        → get_elem? es i ≡ some e
        → p e ≡ false

  -- What is relied on of ndn-cxx's names. Those of prefixes are for names that do not end in a digest.
  pub record SearchLaws : Type 0 where
    pub last_laws : FindLastLaws
    pub prefix_first :
        (e : CsEntry Name) (n : ℕ) → is_before env (env.get_prefix e.packet.name n) e ≡ false
    pub longer_prefix :
        (q : Name) (e e' : CsEntry Name)
        → env.split_digest q ≡ none
        → env.get_prefix e.packet.name (env.size q) ≡ q
        → (env.size e.packet.name == env.size q) ≡ false
        → is_before env q e' ≡ true
        → is_before env (env.get_prefix e.packet.name (env.size q + 1)) e' ≡ true
    pub successor_last :
        (q : Name) (e : CsEntry Name)
        → env.split_digest q ≡ none
        → (env.size q == 0) ≡ false
        → is_before env q e ≡ false
        → is_before env (env.get_successor q) e ≡ true
        → env.get_prefix e.packet.name (env.size q) ≡ q
    pub successor_after :
        (q : Name) (e : CsEntry Name)
        → (env.size q == 0) ≡ false
        → is_before env q e ≡ true
        → is_before env (env.get_successor q) e ≡ true
    pub prefix_between :
        (q : Name) (e : CsEntry Name)
        → IsUnderName q e
        → (is_before env q e ≡ false)
          × ((env.size q == 0) ≡ false → is_before env (env.get_successor q) e ≡ true)
    pub empty_prefix :
        (q : Name) (e : CsEntry Name)
        → (env.size q == 0) ≡ true
        → env.get_prefix e.packet.name (env.size q) ≡ q

  pub lower_bound-le :
      (q : Name) (es : List (CsEntry Name)) (i : ℕ) (e : CsEntry Name)
      → get_elem? es i ≡ some e
      → is_before env q e ≡ false
      → lower_bound env q es ≤ i
  unfolding lower_bound
  lower_bound-le q [] i e is_at h = absurd (cc)
  lower_bound-le q (x ∷ xs) zero e is_at h =
      let same : x ≡ e = ground (arith, is_at) in
      let not_before : is_before env q x ≡ false = rw same h in
      rw (not_before, lower_bound) (omega arith)
  lower_bound-le q (x ∷ xs) (suc i) e is_at h = ground (arith, lower_bound-le q xs i e is_at h)

  pub lower_bound-before :
      (q : Name) (es : List (CsEntry Name)) (i : ℕ) (e : CsEntry Name)
      → get_elem? es i ≡ some e
      → i < lower_bound env q es
      → is_before env q e ≡ true
  unfolding lower_bound
  lower_bound-before q [] i e is_at h = absurd (cc)
  lower_bound-before q (x ∷ xs) zero e is_at h = elim (Bool-cases (is_before env q x)) [
    | inl b ↦ let same : x ≡ e = ground (arith, is_at) in rw (← same) b
    | inr b ↦
        let zero_bound : lower_bound env q (x ∷ xs) ≡ 0 = rw (b, lower_bound) refl in
        absurd (omega (arith, h, zero_bound))
  ]
  lower_bound-before q (x ∷ xs) (suc i) e is_at h =
      lower_bound-before q xs i e is_at (ground (arith, h))

  pub lower_bound_mono :
      (p q : Name) (es : List (CsEntry Name))
      → ((e : CsEntry Name) → is_before env p e ≡ true → is_before env q e ≡ true)
      → lower_bound env p es ≤ lower_bound env q es
  unfolding lower_bound
  lower_bound_mono p q [] h = omega arith
  lower_bound_mono p q (x ∷ xs) h = elim (Bool-cases (is_before env p x)) [
    | inl b ↦
        let rest = lower_bound_mono p q xs h in rw (b, lower_bound, h x b) (omega (arith, rest))
    | inr b ↦ rw (b, lower_bound) (omega arith)
  ]

  pub lower_bound-length : (q : Name) (es : List (CsEntry Name)) → lower_bound env q es ≤ length es
  unfolding lower_bound
  lower_bound-length q [] = omega arith
  lower_bound-length q (x ∷ xs) = ground (arith, lower_bound-length q xs)

  AllPrecedes-get :
      (x : CsEntry Name) (xs : List (CsEntry Name)) (i : ℕ) (e : CsEntry Name)
      → AllPrecedes env x xs
      → get_elem? xs i ≡ some e
      → Precedes env x e
  AllPrecedes-get x [] i e a is_at = absurd (cc)
  AllPrecedes-get x (y ∷ ys) zero e a is_at =
      let same : y ≡ e = ground (arith, is_at) in rw (← same) a.0
  AllPrecedes-get x (y ∷ ys) (suc i) e a is_at = AllPrecedes-get x ys i e a.1 is_at

  -- In an ordered table, nothing from the lower bound on is before the query.
  pub IsOrdered-after :
      (q : Name) (es : List (CsEntry Name)) (i : ℕ) (e : CsEntry Name)
      → IsOrdered env es
      → get_elem? es i ≡ some e
      → lower_bound env q es ≤ i
      → is_before env q e ≡ false
  unfolding lower_bound
  IsOrdered-after q [] i e o is_at h = absurd (cc)
  IsOrdered-after q (x ∷ xs) zero e o is_at h =
      let same : x ≡ e = ground (arith, is_at) in
      rw (← same) (elim (Bool-cases (is_before env q x)) [
        | inr b ↦ b
        | inl b ↦
            let bound : lower_bound env q (x ∷ xs) ≡ suc (lower_bound env q xs) =
              rw (b, lower_bound) refl in
            absurd (omega (arith, h, bound))
      ])
  IsOrdered-after q (x ∷ xs) (suc i) e o is_at h = elim (Bool-cases (is_before env q x)) [
    | inl b ↦ IsOrdered-after q xs i e o.1 is_at (ground (arith, h, b))
    | inr b ↦ elim (Bool-cases (is_before env q e)) [
      | inr b' ↦ b'
      | inl b' ↦ absurd (ground (arith, b, AllPrecedes-get x xs i e o.0 is_at q b'))
    ]
  ]
