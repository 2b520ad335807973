-- ===== src/Cs/Store/Ordered.antt =====
-- The table of the Content Store is in the order in which queries search it.
use ndn_share.Base.{
  ℕ, zero, suc, ◌+◌, ◌≡◌, refl, sym, ◌∙◌, inl, inr, Bool, true, false, Bool-cases, Option-cases,
  none, some, List, [], ◌∷◌, leb, ◌==◌, length, arith,
}
use ndn_share.Packet.{Data}
use ndn_share.Cs.Entry.{CsEntry, entry_of_data, update_stale_time, unset_unsolicited, set_data}
use ndn_share.Cs.Order.{
  CsEnv, is_lt, is_eq, compare_data_with_data, is_before, find_same, insert_sorted, erase_entry,
}
use ndn_share.Cs.Policy.{Policy}
use ndn_share.Cs.Store.{
  Cs, evict_rounds, evict_entries, set_limit, refresh, replace_same, refresh_old, add_new, insert,
}

module _ {Name : Type 0} (env : CsEnv Name) where
  -- Every query that is behind the second is behind the first.
  abbrev pub Precedes : CsEntry Name → CsEntry Name → Type 0
  Precedes e e' = (query : Name) → is_before env query e' ≡ true → is_before env query e ≡ true

  abbrev pub AllPrecedes : CsEntry Name → List (CsEntry Name) → Type 0
  AllPrecedes e [] = Unit
  AllPrecedes e (x ∷ xs) = Precedes e x × AllPrecedes e xs

  abbrev pub IsOrdered : List (CsEntry Name) → Type 0
  IsOrdered [] = Unit
  IsOrdered (e ∷ es) = AllPrecedes e es × IsOrdered es

  -- The order of ndn-cxx's names is total and transitive.
  pub record OrderLaws : Type 0 where
    pub less-Precedes :
        (e e' : CsEntry Name)
        → is_lt (compare_data_with_data env e.packet e'.packet) ≡ true
        → Precedes e e'
    pub greater-Precedes :
        (e e' : CsEntry Name)
        → is_lt (compare_data_with_data env e.packet e'.packet) ≡ false
        → is_eq (compare_data_with_data env e.packet e'.packet) ≡ false
        → Precedes e' e

  AllPrecedes-trans :
      (e e' : CsEntry Name) (es : List (CsEntry Name))
      → Precedes e e'
      → AllPrecedes e' es
      → AllPrecedes e es
  AllPrecedes-trans e e' [] h a = tt
  AllPrecedes-trans e e' (x ∷ xs) h (a, as') =
      (λ query behind. h query (a query behind), AllPrecedes-trans e e' xs h as')

  AllPrecedes-insert_sorted :
      (e new : CsEntry Name) (es : List (CsEntry Name))
      → Precedes e new
      → AllPrecedes e es
      → AllPrecedes e (insert_sorted env new es)
  unfolding insert_sorted
  AllPrecedes-insert_sorted e new [] h a = (h, tt)
  AllPrecedes-insert_sorted e new (x ∷ xs) h a =
      elim (Bool-cases (is_lt (compare_data_with_data env x.packet new.packet))) [
        | inl less ↦ rw (less, insert_sorted) (a.0, AllPrecedes-insert_sorted e new xs h a.1)
        | inr not_less ↦ rw (not_less, insert_sorted) (h, a)
      ]

  insert_sorted-IsOrdered :
      OrderLaws
      → (new : CsEntry Name) (es : List (CsEntry Name)) → find_same env es new.packet ≡ none
      → IsOrdered es
      → IsOrdered (insert_sorted env new es)
  unfolding insert_sorted find_same
  insert_sorted-IsOrdered laws new [] fresh o = (tt, tt)
  insert_sorted-IsOrdered laws new (x ∷ xs) fresh o =
      let differs : is_eq (compare_data_with_data env x.packet new.packet) ≡ false =
        ground (arith, fresh) in
      elim (Bool-cases (is_lt (compare_data_with_data env x.packet new.packet))) [
        | inl less ↦
            rw (less, insert_sorted)
              (
                AllPrecedes-insert_sorted x new xs (laws.less-Precedes x new less) o.0,
                insert_sorted-IsOrdered laws new xs (ground (arith, fresh, differs)) o.1,
              )
        | inr not_less ↦
            let first = laws.greater-Precedes x new not_less differs in
            rw (not_less, insert_sorted) ((first, AllPrecedes-trans new x xs first o.0), o)
      ]

  AllPrecedes-erase_entry :
      (e : CsEntry Name) (id : ℕ) (es : List (CsEntry Name))
      → AllPrecedes e es
      → AllPrecedes e (erase_entry id es)
  AllPrecedes-erase_entry e id [] a = tt
  AllPrecedes-erase_entry e id (x ∷ xs) a = elim (Bool-cases (x.id == id)) [
    | inl hit ↦ rw hit a.1
    | inr miss ↦ rw miss (a.0, AllPrecedes-erase_entry e id xs a.1)
  ]

  erase_entry-IsOrdered :
      (id : ℕ) (es : List (CsEntry Name)) → IsOrdered es → IsOrdered (erase_entry id es)
  erase_entry-IsOrdered id [] o = tt
  erase_entry-IsOrdered id (x ∷ xs) o = elim (Bool-cases (x.id == id)) [
    | inl hit ↦ rw hit o.1
    | inr miss ↦ rw miss (AllPrecedes-erase_entry x id xs o.0, erase_entry-IsOrdered id xs o.1)
  ]

  -- An entry with the same packet stands where the other stood.
  Precedes-packet :
      (e e' : CsEntry Name)
      → e.packet ≡ e'.packet
      → (query : Name) → is_before env query e ≡ is_before env query e'
  unfolding is_before
  Precedes-packet e e' same query = rw same refl

  AllPrecedes-replace_same :
      (e : CsEntry Name) (packet : Data Name) (old new : CsEntry Name) (es : List (CsEntry Name))
      → find_same env es packet ≡ some old
      → new.packet ≡ old.packet
      → AllPrecedes e es
      → AllPrecedes e (replace_same env packet new es)
  unfolding replace_same find_same
  AllPrecedes-replace_same e packet old new [] found same a = tt
  AllPrecedes-replace_same e packet old new (x ∷ xs) found same a =
      elim (Bool-cases (is_eq (compare_data_with_data env x.packet packet))) [
        | inl hit ↦
            let here : x ≡ old = ground (arith, hit, found) in
            rw (hit, replace_same)
              (
                λ query behind.
                    a.0 query (sym (Precedes-packet new x (rw here same) query) ∙ behind),
                a.1,
              )
        | inr miss ↦
            rw (miss, replace_same)
              (
                a.0,
                AllPrecedes-replace_same e packet old new xs (ground (arith, miss, found)) same a.1,
              )
      ]

  replace_same-IsOrdered :
      (packet : Data Name) (old new : CsEntry Name) (es : List (CsEntry Name))
      → find_same env es packet ≡ some old
      → new.packet ≡ old.packet
      → IsOrdered es
      → IsOrdered (replace_same env packet new es)
  unfolding replace_same find_same
  replace_same-IsOrdered packet old new [] found same o = tt
  replace_same-IsOrdered packet old new (x ∷ xs) found same o =
      elim (Bool-cases (is_eq (compare_data_with_data env x.packet packet))) [
        | inl hit ↦
            let here : x ≡ old = ground (arith, hit, found) in
            rw (hit, replace_same)
              (
                AllPrecedes-trans new x xs
                    (λ query behind. Precedes-packet new x (rw here same) query ∙ behind) o.0,
                o.1,
              )
        | inr miss ↦
            let rest : find_same env xs packet ≡ some old = ground (arith, miss, found) in
            rw (miss, replace_same)
              (
                AllPrecedes-replace_same x packet old new xs rest same o.0,
                replace_same-IsOrdered packet old new xs rest same o.1,
              )
      ]

module _ {Name P : Type 0} (env : CsEnv Name) (policy : Policy Name P) where
  evict_rounds-IsOrdered :
      (fuel : ℕ) (cs : Cs Name P)
      → IsOrdered env cs.table
      → IsOrdered env (evict_rounds policy fuel cs).table
  unfolding evict_rounds
  evict_rounds-IsOrdered zero cs o = o
  evict_rounds-IsOrdered (suc fuel) cs o = elim (Bool-cases (leb (length cs.table) cs.limit)) [
    | inl fits ↦ rw (fits, evict_rounds) o
    | inr over ↦ elim (Option-cases (policy.evict_one cs.policy)) [
      | inl nothing ↦ rw (over, evict_rounds, nothing) o
      | inr ((id, p), evicted) ↦
          rw (over, evict_rounds, evicted)
            (evict_rounds-IsOrdered fuel (record cs { table = erase_entry id cs.table; policy = p })
              (erase_entry-IsOrdered env id cs.table o))
    ]
  ]

  pub set_limit-IsOrdered :
      (cs : Cs Name P) (n_max_packets : ℕ)
      → IsOrdered env cs.table
      → IsOrdered env (set_limit policy cs n_max_packets).table
  unfolding set_limit evict_entries
  set_limit-IsOrdered cs n_max_packets o =
      evict_rounds-IsOrdered (length cs.table) (record cs { limit = n_max_packets }) o

  packet-refresh :
      (now : ℕ) (is_unsolicited : Bool) (e : CsEntry Name)
      → (refresh now is_unsolicited e).packet ≡ e.packet
  unfolding refresh unset_unsolicited set_data update_stale_time
  packet-refresh now is_unsolicited e = ground arith

  packet-new :
      (id now : ℕ) (packet : Data Name) (is_unsolicited : Bool)
      → (update_stale_time now (entry_of_data id now packet is_unsolicited)).packet ≡ packet
  unfolding entry_of_data set_data update_stale_time
  packet-new id now packet is_unsolicited = refl

  -- insert keeps the table in order.
  pub insert-IsOrdered :
      OrderLaws env
      → (now : ℕ) (cs : Cs Name P) (packet : Data Name) (is_unsolicited : Bool)
      → IsOrdered env cs.table
      → IsOrdered env (insert env policy now cs packet is_unsolicited).table
  unfolding insert refresh_old add_new evict_entries
  insert-IsOrdered laws now cs packet is_unsolicited o = elim (Bool-cases (cs.limit == 0)) [
    | inl off ↦ rw (off, insert) o
    | inr on ↦ elim (Bool-cases (env.is_no_cache packet)) [
      | inl refused ↦ rw (on, insert, refused) o
      | inr cached ↦ elim (Option-cases (find_same env cs.table packet)) [
        | inl new ↦
            let e =
              update_stale_time now
                (entry_of_data (cs.last_entry_id + 1) now packet is_unsolicited) in
            rw (on, insert, cached, new)
              (evict_rounds-IsOrdered _ (add_new env policy now cs packet is_unsolicited) (
                insert_sorted-IsOrdered env laws e cs.table
                  (rw (packet-new (cs.last_entry_id + 1) now packet is_unsolicited) new) o))
        | inr (old, found) ↦
            rw (on, insert, cached, found)
              (replace_same-IsOrdered env packet old (refresh now is_unsolicited old) cs.table found
                (packet-refresh now is_unsolicited old) o)
      ]
    ]
  ]
