-- ===== src/Cs/Store/Find.antt =====
-- What Cs::find finds, in a table that is in order.
use ndn_share.Base.{
  ℕ, ◌≤◌, ◌≡◌, refl, inl, inr, true, false, Bool-cases, Option, none, some, List, ltb, arith,
}
use ndn_share.Packet.{Interest}
use ndn_share.Cs.Entry.{CsEntry}
use ndn_share.Cs.Order.{CsEnv, range}
use ndn_share.Cs.Store.{satisfies, find_leftmost}
use ndn_share.Base.Positions.{Between, find_if-position, find_if-none}
use ndn_share.Cs.Store.Positions.{range-Between, Between-range}
use ndn_share.Cs.Store.LowerBound.{FindLastLaws}

module _ {Name : Type 0} (env : CsEnv Name) (now : ℕ) (interest : Interest Name) where
  -- A search of [first, last) that has hit an entry there that satisfies the Interest, or has missed
  -- as no entry there does.
  pub record IsSearched (es : List (CsEntry Name)) (first last : ℕ) (result : Option (CsEntry Name))
      : Type 0 where
    pub hit :
        (e : CsEntry Name)
        → result ≡ some e
        → (satisfies env now interest e ≡ true) × Between first last es e
    pub miss :
        result ≡ none
        → (e : CsEntry Name) → Between first last es e
        → satisfies env now interest e ≡ false

  pub find_leftmost-IsSearched :
      (es : List (CsEntry Name)) (first last : ℕ)
      → IsSearched es first last (find_leftmost env now interest (range first last es))
  unfolding find_leftmost
  find_leftmost-IsSearched es first last = record {
    hit = λ e found.
        let (holds, (i, is_at)) = find_if-position _ (range first last es) e found in
        (holds, range-Between first last i es e is_at);
    miss = λ missed e b.
        let (i, is_at) = Between-range first last es e b in
        find_if-none _ (range first last es) i e missed is_at;
  }

  module _ (laws : FindLastLaws env) where
    pub find_last_if-IsSearched :
        (es : List (CsEntry Name)) (first last : ℕ)
        → IsSearched es first last
            (env.find_last_if (satisfies env now interest) (range first last es))
    find_last_if-IsSearched es first last = record {
      hit = λ e found.
          let (holds, (i, is_at)) =
            laws.find_last_if-some (satisfies env now interest) (range first last es) e found in
          (holds, range-Between first last i es e is_at);
      miss = λ missed e b.
          let (i, is_at) = Between-range first last es e b in
          laws.find_last_if-none (satisfies env now interest) (range first last es) i e missed
            is_at;
    }

  pub widen_hit :
      (es : List (CsEntry Name)) (first left right : ℕ) (e : CsEntry Name)
      → first ≤ left
      → IsSearched es left right (some e)
      → IsSearched es first right (some e)
  widen_hit es first left right e h s = record {
    hit = λ e' found.
        let (holds, b) = s.hit e' found in
        (
          holds,
          record {
            position = b.position;
            from = omega (arith, h, b.from);
            before = b.before;
            is_at = b.is_at;
          },
        );
    miss = λ missed. absurd (cc);
  }

  pub join_miss :
      (es : List (CsEntry Name)) (first left right : ℕ) (result : Option (CsEntry Name))
      → left ≤ right
      → IsSearched es left right none
      → IsSearched es first left result
      → IsSearched es first right result
  join_miss es first left right result h s s' = record {
    hit = λ e found.
        let (holds, b) = s'.hit e found in
        (
          holds,
          record {
            position = b.position;
            from = b.from;
            before = omega (arith, h, b.before);
            is_at = b.is_at;
          },
        );
    miss = λ missed e b. elim (Bool-cases (ltb b.position left)) [
      | inl low ↦ s'.miss missed e (record {
        position = b.position;
        from = b.from;
        before = ground (arith, low);
        is_at = b.is_at;
      })
      | inr high ↦ s.miss refl e (record {
        position = b.position;
        from = ground (arith, high);
        before = b.before;
        is_at = b.is_at;
      })
    ];
  }
