-- ===== src/Strategies/Retx.antt =====
-- The suppression of retransmissions: fw/retx-suppression.cpp, fw/retx-suppression-exponential.cpp and
-- fw/retx-suppression-fixed.cpp. Intervals are in nanoseconds. The product with the multiplier, a float
-- in the source, and its cast to microseconds are a function of the interval; the default multiplier is
-- 2.0, by which the product is exact for the intervals of best-route 2 (10 ms times powers of 2).
pub mod Intervals
use ndn_share.Base.{
  ℕ, ◌*◌, ◌-◌, min, Bool, true, false, not, Option, none, some, ltb, if◌then◌else◌, max_element,
}
use ndn_share.Packet.{nanoseconds}
use ndn_share.Pit.{Entry, OutRecord}
use ndn_share.Pit.Algorithm.{has_pending_out_records}

-- RetxSuppression::Result
pub data RetxResult : Type 0 where
  new_interest forward suppress : RetxResult

pub record Exponential : Type 0 where
  pub initial_interval : ℕ
  pub multiplied : ℕ → ℕ
  pub max_interval : ℕ

abbrev pub default_exponential : Exponential
default_exponential = record {
  initial_interval = nanoseconds 1;
  multiplied = λ interval. interval * 2;
  max_interval = nanoseconds 250;
}

abbrev pub default_min_retx_interval : ℕ
default_min_retx_interval = nanoseconds 100

abbrev pub next_interval : Exponential → ℕ → ℕ
next_interval retx interval = min retx.max_interval (retx.multiplied interval)

module _ {Name : Type 0} where
  -- The source asserts that there is an out-record; without one this is 0.
  unfoldable pub get_last_outgoing : Entry Name → ℕ
  unfolding max_element
  get_last_outgoing e =
      elim (max_element (λ (a b : OutRecord). ltb a.last_renewed b.last_renewed) e.out_records) [
        | none ↦ 0
        | some r ↦ r.last_renewed
      ]

  -- The interval of the PIT entry, which gets the initial one when there is none.
  unfoldable pub interval_of : Exponential → Entry Name → ℕ
  interval_of retx e = elim e.suppression_interval [ none ↦ retx.initial_interval | some i ↦ i ]

  -- The result, and the interval that the PIT entry has then.
  unfoldable pub decide : Exponential → (now : ℕ) → Entry Name → RetxResult × Option ℕ
  unfolding has_pending_out_records get_last_outgoing interval_of
  decide retx now e =
      if not (has_pending_out_records now e)
      then (new_interest, e.suppression_interval)
      else if ltb (now - get_last_outgoing e) (interval_of retx e)
      then (suppress, some (interval_of retx e))
      else (forward, some (next_interval retx (interval_of retx e)))

  unfoldable pub decide_fixed : (min_retx_interval now : ℕ) → Entry Name → RetxResult
  unfolding has_pending_out_records get_last_outgoing
  decide_fixed min_retx_interval now e =
      if not (has_pending_out_records now e)
      then new_interest
      else if ltb (now - get_last_outgoing e) min_retx_interval
      then suppress
      else forward
