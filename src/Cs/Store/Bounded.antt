-- ===== src/Cs/Store/Bounded.antt =====
-- The Content Store keeps to its limit.
use ndn_share.Base.{
  ℕ, zero, suc, ◌+◌, ◌≤◌, ◌≡◌, ◌≢◌, refl, sym, ap, ◌∙◌, inl, inr, Bool, Bool-cases, Option-cases,
  some, List, [], ◌∷◌, leb, ◌==◌, length, find_if, arith,
}
use ndn_share.Packet.{Data}
use ndn_share.Cs.Entry.{CsEntry, entry_of_data, update_stale_time, unset_unsolicited, set_data}
use ndn_share.Cs.Order.{CsEnv, find_same, id_of, erase_entry}
use ndn_share.Cs.Policy.{Policy, PolicyLaws, occurrences, is_one}
use ndn_share.Cs.Policy.Counting.{occurrences-erase_first, length-erase_first, occurrences-find_if}
use ndn_share.Cs.Store.{
  Cs, evict_rounds, evict_entries, set_limit, init, refresh, refresh_old, add_new, insert,
}
use ndn_share.Cs.Store.Counting.{ids, occurrences-replace_same, occurrences-insert_sorted}

length_of_occurrences :
    {Name : Type 0} (es : List (CsEntry Name))
    → ((x : ℕ) → occurrences x (ids es) ≡ 0)
    → length es ≡ 0
length_of_occurrences [] h = refl
length_of_occurrences (e ∷ es) h = absurd (ground (arith, h e.id))

module _ {Name P : Type 0} {policy : Policy Name P} (laws : PolicyLaws policy) where
  -- The policy keeps track of exactly the entries of the table.
  pub record IsTracked (cs : Cs Name P) : Type 0 where
    pub counts : (x : ℕ) → occurrences x (laws.tracked cs.policy) ≡ occurrences x (ids cs.table)

  pub record IsBounded (cs : Cs Name P) : Type 0 where
    pub is_tracked : IsTracked cs
    pub within : length cs.table ≤ cs.limit

  erased-IsTracked :
      (cs : Cs Name P) (id : ℕ) (p : P)
      → IsTracked cs
      → ((x : ℕ)
          → occurrences x (laws.tracked cs.policy) ≡ is_one x id + occurrences x (laws.tracked p))
      → IsTracked (record cs { table = erase_entry id cs.table; policy = p })
        × (suc (length (erase_entry id cs.table)) ≡ length cs.table)
  erased-IsTracked cs id p t u =
      let is_in : occurrences id (ids cs.table) ≢ 0 = λ z. ground (arith, t.counts id, u id, z) in
      (
        record {
          counts = λ x.
              omega (arith, t.counts x, u x, occurrences-erase_first id_of x id cs.table is_in);
        },
        length-erase_first id_of id cs.table is_in,
      )

  -- An eviction that has rounds enough ends within the limit.
  evict_rounds-IsBounded :
      (fuel : ℕ) (cs : Cs Name P)
      → IsTracked cs
      → length cs.table ≤ fuel
      → IsBounded (evict_rounds policy fuel cs) × ((evict_rounds policy fuel cs).limit ≡ cs.limit)
  unfolding evict_rounds
  evict_rounds-IsBounded zero cs t enough = (record { is_tracked = t; within = omega arith }, refl)
  evict_rounds-IsBounded (suc fuel) cs t enough =
      elim (Bool-cases (leb (length cs.table) cs.limit)) [
        | inl fits ↦
            rw (fits, evict_rounds) (record { is_tracked = t; within = ground (arith, fits) }, refl)
        | inr over ↦ elim (laws.tracked-evict_one cs.policy) [
          | inl (none_left, empty) ↦ absurd (
              ground (
                arith,
                over,
                length_of_occurrences cs.table λ x. sym (t.counts x) ∙ ap (occurrences x) empty,
              ))
          | inr (id, p, evicted, u) ↦
              let (t', shorter) = erased-IsTracked cs id p t u in
              rw (over, evict_rounds, evicted)
                (evict_rounds-IsBounded fuel
                  (record cs { table = erase_entry id cs.table; policy = p }) t' (omega arith))
        ]
      ]

  evict_entries-IsBounded :
      (cs : Cs Name P)
      → IsTracked cs
      → IsBounded (evict_entries policy cs) × ((evict_entries policy cs).limit ≡ cs.limit)
  unfolding evict_entries
  evict_entries-IsBounded cs t = evict_rounds-IsBounded (length cs.table) cs t (omega arith)

  pub set_limit-IsBounded :
      (cs : Cs Name P) (n_max_packets : ℕ)
      → IsTracked cs
      → IsBounded (set_limit policy cs n_max_packets)
        × ((set_limit policy cs n_max_packets).limit ≡ n_max_packets)
  unfolding set_limit
  set_limit-IsBounded cs n_max_packets t =
      evict_entries-IsBounded (record cs { limit = n_max_packets }) (record { counts = t.counts })

  pub init-IsBounded : (n_max_packets : ℕ) → IsBounded (init policy n_max_packets)
  unfolding init
  init-IsBounded n_max_packets =
      (set_limit-IsBounded
        (record { table = []; last_entry_id = 0; limit = 0; policy = policy.empty }) n_max_packets
        (record { counts = λ x. ap (occurrences x) laws.tracked-empty })).0

  module _ (env : CsEnv Name) (now : ℕ) where
    id-refresh :
        (is_unsolicited : Bool) (e : CsEntry Name) → (refresh now is_unsolicited e).id ≡ e.id
    unfolding refresh unset_unsolicited set_data update_stale_time
    id-refresh is_unsolicited e = ground arith

    is_in :
        (cs : Cs Name P) (p : CsEntry Name → Bool) (e : CsEntry Name)
        → IsTracked cs
        → find_if p cs.table ≡ some e
        → occurrences e.id (laws.tracked cs.policy) ≢ 0
    is_in cs p e t found z = occurrences-find_if id_of p cs.table e found (sym (t.counts e.id) ∙ z)

    refresh_old-IsTracked :
        (cs : Cs Name P) (packet : Data Name) (old : CsEntry Name) (is_unsolicited : Bool)
        → IsTracked cs
        → find_same env cs.table packet ≡ some old
        → IsTracked (refresh_old env policy now cs packet old is_unsolicited)
          × (length (refresh_old env policy now cs packet old is_unsolicited).table
              ≡ length cs.table)
    unfolding refresh_old find_same
    refresh_old-IsTracked cs packet old is_unsolicited t found =
        let e = refresh now is_unsolicited old in
        let same = id-refresh is_unsolicited old in
        let there : occurrences e.id (laws.tracked cs.policy) ≢ 0 =
          rw same (is_in cs _ old t found) in
        (
          record {
            counts = λ x.
                laws.tracked-after_refresh now e cs.policy x there
                ∙ t.counts x
                ∙ sym (occurrences-replace_same env packet x old e cs.table found same).0;
          },
          (occurrences-replace_same env packet 0 old e cs.table found same).1,
        )

    add_new-IsTracked :
        (cs : Cs Name P) (packet : Data Name) (is_unsolicited : Bool)
        → IsTracked cs
        → IsTracked (add_new env policy now cs packet is_unsolicited)
    unfolding add_new
    add_new-IsTracked cs packet is_unsolicited t =
        let e =
          update_stale_time now (entry_of_data (cs.last_entry_id + 1) now packet is_unsolicited) in
        record {
          counts = λ x.
              laws.tracked-after_insert now e cs.policy x
              ∙ ap (λ n. is_one x e.id + n) (t.counts x)
              ∙ sym (occurrences-insert_sorted env x e cs.table);
        }

    -- insert keeps the store within its limit, under its policy.
    pub insert-IsBounded :
        (cs : Cs Name P) (packet : Data Name) (is_unsolicited : Bool)
        → IsBounded cs
        → IsBounded (insert env policy now cs packet is_unsolicited)
          × ((insert env policy now cs packet is_unsolicited).limit ≡ cs.limit)
    unfolding insert find_same
    insert-IsBounded cs packet is_unsolicited b = elim (Bool-cases (cs.limit == 0)) [
      | inl off ↦ rw (off, insert) (b, refl)
      | inr on ↦ elim (Bool-cases (env.is_no_cache packet)) [
        | inl refused ↦ rw (on, insert, refused) (b, refl)
        | inr cached ↦ elim (Option-cases (find_same env cs.table packet)) [
          | inl new ↦
              rw (on, insert, cached, new)
                (evict_entries-IsBounded (add_new env policy now cs packet is_unsolicited)
                  (add_new-IsTracked cs packet is_unsolicited b.is_tracked))
          | inr (old, found) ↦
              let (t, len) =
                refresh_old-IsTracked cs packet old is_unsolicited b.is_tracked found in
              rw (on, insert, cached, found)
                (record { is_tracked = t; within = omega (arith, len, b.within) }, refl)
        ]
      ]
    ]
