-- ===== src/Strategies/Retx/Intervals.antt =====
-- What exponential suppression decides.
use ndn_share.Base.{
  ℕ, ◌-◌, ◌≤◌, ◌<◌, ◌≡◌, refl, ◌⊎◌, inl, inr, true, false, Bool-cases, some, ltb, arith,
}
use ndn_share.Pit.{Entry}
use ndn_share.Pit.Algorithm.{has_pending_out_records}
use ndn_share.Strategies.Retx.{
  Exponential, new_interest, forward, suppress, interval_of, next_interval, decide,
  get_last_outgoing,
}

pub decide_cases :
    {Name : Type 0} (retx : Exponential) (now : ℕ) (e : Entry Name)
    → ((has_pending_out_records now e ≡ false)
        × (decide retx now e ≡ (new_interest, e.suppression_interval)))
      ⊎ ((has_pending_out_records now e ≡ true)
          × ((now - get_last_outgoing e < interval_of retx e)
              × (decide retx now e ≡ (suppress, some (interval_of retx e)))))
      ⊎ ((has_pending_out_records now e ≡ true)
          × ((interval_of retx e ≤ now - get_last_outgoing e)
              × (decide retx now e ≡ (forward, some (next_interval retx (interval_of retx e))))))
unfolding decide
decide_cases retx now e = elim (Bool-cases (has_pending_out_records now e)) [
  | inr new ↦ inl (new, rw (new, decide) refl)
  | inl pending ↦ elim (Bool-cases (ltb (now - get_last_outgoing e) (interval_of retx e))) [
    | inl soon ↦ inr (inl (pending, (ground (arith, soon), rw (pending, decide, soon) refl)))
    | inr late ↦ inr (inr (pending, (ground (arith, late), rw (pending, decide, late) refl)))
  ]
]
