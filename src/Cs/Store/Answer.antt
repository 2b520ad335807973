-- ===== src/Cs/Store/Answer.antt =====
-- The answers of Cs::find, and the runs of a Content Store.
use ndn_share.Base.{
  ℕ, zero, suc, ◌≡◌, ◌≢◌, sym, ap, ◌∙◌, inl, inr, true, false, Option-cases, Option, none, some,
  List, [], ◌∷◌, get_elem?, arith,
}
use ndn_share.Packet.{Interest, Data}
use ndn_share.Cs.Entry.{CsEntry}
use ndn_share.Cs.Order.{CsEnv}
use ndn_share.Cs.Policy.{Policy, PolicyLaws, occurrences}
use ndn_share.Cs.Store.{Cs, satisfies, find_match, find}
use ndn_share.Cs.Store.Counting.{ids}
use ndn_share.Cs.Store.Bounded.{IsBounded}
use ndn_share.Cs.Store.Ordered.{IsOrdered}
use ndn_share.Cs.Store.LowerBound.{FindLastLaws, IsUnderName}
use ndn_share.Cs.Store.Match.{find_match-IsStored}

occurrences-get :
    {Name : Type 0} (es : List (CsEntry Name)) (i : ℕ) (e : CsEntry Name)
    → get_elem? es i ≡ some e
    → occurrences e.id (ids es) ≢ 0
occurrences-get [] i e is_at = absurd (cc)
occurrences-get (x ∷ xs) zero e is_at =
    let same : x ≡ e = ground (arith, is_at) in rw (← same) (λ z. ground arith)
occurrences-get (x ∷ xs) (suc i) e is_at =
    let rest = occurrences-get xs i e is_at in λ z. rest (omega (arith, z))

module _ {Name P : Type 0} (env : CsEnv Name) {policy : Policy Name P}
    (laws : PolicyLaws policy) where
  pub record IsValid (cs : Cs Name P) : Type 0 where
    pub is_bounded : IsBounded laws cs
    pub is_ordered : IsOrdered env cs.table

module _ {Name : Type 0} (env : CsEnv Name) (now : ℕ) where
  -- The Data is of a stored entry that satisfies the Interest; without Data, no stored entry under
  -- the Interest's name satisfies it.
  pub record IsAnswer (es : List (CsEntry Name)) (interest : Interest Name)
      (answer : Option (Data Name)) : Type 0 where
    pub hit :
        (packet : Data Name)
        → answer ≡ some packet
        → (e : CsEntry Name) × ((e.packet ≡ packet)
            × ((satisfies env now interest e ≡ true) × ((i : ℕ) × (get_elem? es i ≡ some e))))
    pub miss :
        answer ≡ none
        → (i : ℕ) (e : CsEntry Name) → get_elem? es i ≡ some e
        → IsUnderName env interest.name e
        → satisfies env now interest e ≡ false

  module _ {P : Type 0} {policy : Policy Name P} (laws : PolicyLaws policy)
      (last_laws : FindLastLaws env) where
    pub find-IsValid :
        (cs : Cs Name P) (interest : Interest Name)
        → IsValid env laws cs
        → IsValid env laws (find env policy now cs interest).0
    unfolding find
    find-IsValid cs interest v = elim (Option-cases (find_match env now interest cs.table)) [
      | inl unfinished ↦ rw (unfinished, find) v
      | inr (result, eq) ↦ elim (Option-cases result) [
        | inl missed ↦ let eq' = eq ∙ ap some missed in rw (eq', find) v
        | inr (e, found) ↦
            let eq' = eq ∙ ap some found in
            let (i, is_at) = find_match-IsStored env last_laws now interest cs.table e eq' in
            let tracked = v.is_bounded.is_tracked in
            let there : occurrences e.id (laws.tracked cs.policy) ≢ 0 =
              λ z. occurrences-get cs.table i e is_at (sym (tracked.counts e.id) ∙ z) in
            rw (eq', find)
              (record {
                is_bounded = record {
                  is_tracked = record {
                    counts =
                        λ x. laws.tracked-before_use now e cs.policy x there ∙ tracked.counts x;
                  };
                  within = v.is_bounded.within;
                };
                is_ordered = v.is_ordered;
              })
      ]
    ]
