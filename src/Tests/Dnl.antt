-- ===== src/Tests/Dnl.antt =====
-- The Dead Nonce List at concrete insertions.
use ndn_share.Base.{ℕ, ◌+◌, ◌≡◌, refl, true, [], ◌∷◌, length, replicate, arith}
use ndn_share.DeadNonceList.{
  DeadNonceList, init, has, add, add_entry, mark, adjust_capacity, adjusted_capacity, count_marks,
  evict_entries,
}
use ndn_share.DeadNonceList.Retention.{has-run-add}
use ndn_share.DeadNonceList.Capacity.{
  InLimits, run, step, run-init-InLimits, length-evict_entries, add_entry-within,
}
use ndn_share.DeadNonceList.Capacity

abbrev pub hash : ℕ → ℕ → ℕ
hash name nonce = 1_000 + name + nonce

-- A list as it is after the start, and one of ten entries that is two over its capacity.
abbrev pub fresh : DeadNonceList
fresh = record {
  lifetime = 6_000_000_000;
  queue = replicate 5 0;
  capacity = 128;
  actual_mark_counts = [];
  mark_interval = 1_200_000_000;
  adjust_capacity_interval = 6_000_000_000;
}

abbrev full : DeadNonceList
full = record fresh { queue = replicate 10 1; capacity = 8 }

two_evicted : length (evict_entries full).queue ≡ 8
unfolding evict_entries
two_evicted = refl

has-run-add_example :
    has hash
      (run (add hash fresh 8 77) (Capacity.marks ∷ Capacity.adjusts ∷ Capacity.adds 5 ∷ []))
      8
      77
    ≡ true
unfolding run step add add_entry mark adjust_capacity adjusted_capacity evict_entries count_marks
has-run-add_example =
    has-run-add hash fresh 8 77 (Capacity.marks ∷ Capacity.adjusts ∷ Capacity.adds 5 ∷ [])
      (ground arith)

run-init-InLimits_example :
    InLimits (run fresh (Capacity.marks ∷ Capacity.adjusts ∷ Capacity.adds 5 ∷ []))
unfolding init
run-init-InLimits_example =
    run-init-InLimits 6_000_000_000 fresh (Capacity.marks ∷ Capacity.adjusts ∷ Capacity.adds 5 ∷ [])
      refl
