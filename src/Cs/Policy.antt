-- ===== src/Cs/Policy.antt =====
-- table/cs-policy.hpp: a replacement policy, as the Content Store uses it, and what the store relies
-- on: the policy keeps track of the entries that the table has, each once.
pub mod Counting
use ndn_share.Base.{ℕ, ◌+◌, ◌≡◌, ◌≢◌, ◌⊎◌, Option, none, some, List, [], ◌∷◌, ◌==◌, if◌then◌else◌}
use ndn_share.Cs.Entry.{CsEntry}

-- `after_insert` is doAfterInsert up to the eviction; `evict_one` is a round of evictEntries: what is
-- evicted, if there is anything, and the policy without it; `timer_fires` is what a timer that it has set for an entry does.
pub record Policy (Name P : Type 0) : Type 0 where
  pub empty : P
  pub after_insert : (now : ℕ) → CsEntry Name → P → P
  pub after_refresh : (now : ℕ) → CsEntry Name → P → P
  pub before_use : (now : ℕ) → CsEntry Name → P → P
  pub evict_one : P → Option (ℕ × P)
  pub timer_fires : (id : ℕ) → P → P

-- How often a number stands in a list.
abbrev pub occurrences : ℕ → List ℕ → ℕ
occurrences x [] = 0
occurrences x (y ∷ ys) = (if y == x then 1 else 0) + occurrences x ys

abbrev pub is_one : ℕ → ℕ → ℕ
is_one x y = if y == x then 1 else 0

pub record PolicyLaws {Name P : Type 0} (policy : Policy Name P) : Type 0 where
  pub tracked : P → List ℕ
  pub tracked-empty : tracked policy.empty ≡ []
  pub tracked-after_insert :
      (now : ℕ) (e : CsEntry Name) (p : P) (x : ℕ)
      → occurrences x (tracked (policy.after_insert now e p))
        ≡ is_one x e.id + occurrences x (tracked p)
  pub tracked-after_refresh :
      (now : ℕ) (e : CsEntry Name) (p : P) (x : ℕ)
      → occurrences e.id (tracked p) ≢ 0
      → occurrences x (tracked (policy.after_refresh now e p)) ≡ occurrences x (tracked p)
  pub tracked-before_use :
      (now : ℕ) (e : CsEntry Name) (p : P) (x : ℕ)
      → occurrences e.id (tracked p) ≢ 0
      → occurrences x (tracked (policy.before_use now e p)) ≡ occurrences x (tracked p)
  pub tracked-timer_fires :
      (id : ℕ) (p : P) (x : ℕ)
      → occurrences id (tracked p) ≢ 0
      → occurrences x (tracked (policy.timer_fires id p)) ≡ occurrences x (tracked p)
  pub tracked-evict_one :
      (p : P)
      → ((policy.evict_one p ≡ none) × (tracked p ≡ []))
        ⊎ ((id : ℕ) × (q : P) × (policy.evict_one p ≡ some (id, q))
            × ((x : ℕ) → occurrences x (tracked p) ≡ is_one x id + occurrences x (tracked q)))
