-- ===== src/Cs/Store/Positions.antt =====
-- The elements between two positions of the table, as a list.
use ndn_share.Base.{ℕ, ◌+◌, ◌-◌, ◌≡◌, ap, ◌∙◌, true, some, List, ltb, get_elem?, drop, arith}
use ndn_share.Base.Positions.{Between, get_elem?-take, get_elem?-drop}
use ndn_share.Cs.Entry.{CsEntry}
use ndn_share.Cs.Order.{range}

module _ {Name : Type 0} where
  pub range-Between :
      (first last i : ℕ) (es : List (CsEntry Name)) (e : CsEntry Name)
      → get_elem? (range first last es) i ≡ some e
      → Between first last es e
  range-Between first last i es e h =
      let within = get_elem?-take (last - first) i (drop first es) in
      let at = get_elem?-drop first i es in
      record {
        position = first + i;
        from = omega arith;
        before = ground (arith, within, h);
        is_at = ground (arith, within, h, at);
      }

  pub Between-range :
      (first last : ℕ) (es : List (CsEntry Name)) (e : CsEntry Name)
      → Between first last es e
      → (i : ℕ) × (get_elem? (range first last es) i ≡ some e)
  Between-range first last es e b =
      let i = b.position - first in
      let back : first + i ≡ b.position = omega (arith, b.from) in
      let at = get_elem?-drop first i es ∙ ap (get_elem? es) back in
      let small : ltb i (last - first) ≡ true = ground (arith, b.from, b.before) in
      (i, get_elem?-take (last - first) i (drop first es) ∙ rw (small, at) b.is_at)
