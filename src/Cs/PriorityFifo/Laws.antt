-- ===== src/Cs/PriorityFifo/Laws.antt =====
-- The queues of the priority FIFO policy keep track of the table's entries.
use ndn_share.Base.{
  ℕ, ◌+◌, ◌≡◌, ◌≢◌, refl, ap, ◌∙◌, ◌⊎◌, inl, inr, none, some, Option-cases, List, [], ◌∷◌, ◌++◌,
  map, find_if, arith,
}
use ndn_share.Cs.Entry.{CsEntry}
use ndn_share.Cs.Policy.{occurrences, is_one, PolicyLaws}
use ndn_share.Cs.Policy.Counting.{occurrences-erase_first, occurrences-find_if}
use ndn_share.Cs.PriorityFifo.{
  queue_unsolicited, queue_stale, queue_fifo, in_queue, EntryInfo, info_of, attach_queue,
  detach_queue, move_to_stale_queue, victim, evict_one, priority_fifo_policy,
}

abbrev pub info_id : EntryInfo → ℕ
info_id info = info.id

abbrev pub tracked : List EntryInfo → List ℕ
tracked infos = map info_id infos

tracked-append :
    (x : ℕ) (infos : List EntryInfo) (info : EntryInfo)
    → occurrences x (tracked (infos ++ info ∷ []))
      ≡ is_one x info.id + occurrences x (tracked infos)
tracked-append x [] info = omega arith
tracked-append x (i ∷ infos) info = omega (arith, tracked-append x infos info)

module _ {Name : Type 0} where
  id-info_of : (now : ℕ) (e : CsEntry Name) → (info_of now e).id ≡ e.id
  unfolding info_of
  id-info_of now e = ground arith

  attached :
      (now : ℕ) (e : CsEntry Name) (infos : List EntryInfo) (x : ℕ)
      → occurrences x (tracked (attach_queue now e infos))
        ≡ is_one x e.id + occurrences x (tracked infos)
  unfolding attach_queue
  attached now e infos x =
      tracked-append x infos (info_of now e)
      ∙ ap (λ id. is_one x id + occurrences x (tracked infos)) (id-info_of now e)

detached :
    (x id : ℕ) (infos : List EntryInfo)
    → occurrences id (tracked infos) ≢ 0
    → occurrences x (tracked infos) ≡ is_one x id + occurrences x (tracked (detach_queue id infos))
unfolding detach_queue
detached x id infos h = occurrences-erase_first info_id x id infos h

-- Every info is in a queue.
no_info :
    (infos : List EntryInfo)
    → find_if (in_queue queue_unsolicited) infos ≡ none
    → find_if (in_queue queue_stale) infos ≡ none
    → find_if (in_queue queue_fifo) infos ≡ none
    → infos ≡ []
no_info [] a b c = refl
no_info (info ∷ infos) a b c = absurd (ground arith)

-- The victim is among the infos; there is none only if there is no info.
pub victim_cases :
    (infos : List EntryInfo)
    → ((victim infos ≡ none) × (infos ≡ []))
      ⊎ ((info : EntryInfo) × (victim infos ≡ some info)
          × (occurrences info.id (tracked infos) ≢ 0))
unfolding victim
victim_cases infos = elim (Option-cases (find_if (in_queue queue_unsolicited) infos)) [
  | inr (i, e) ↦ inr (i, rw (e, victim) refl, occurrences-find_if info_id _ infos i e)
  | inl no_unsolicited ↦ elim (Option-cases (find_if (in_queue queue_stale) infos)) [
    | inr (i, e) ↦
        inr (i, rw (no_unsolicited, victim, e) refl, occurrences-find_if info_id _ infos i e)
    | inl no_stale ↦ elim (Option-cases (find_if (in_queue queue_fifo) infos)) [
      | inr (i, e) ↦
          inr (i, rw (no_unsolicited, victim, no_stale) e, occurrences-find_if info_id _ infos i e)
      | inl no_fifo ↦ inl (
        rw (no_unsolicited, victim, no_stale) no_fifo,
        no_info infos no_unsolicited no_stale no_fifo,
      )
    ]
  ]
]

evict_one_lem :
    (infos : List EntryInfo)
    → ((evict_one infos ≡ none) × (tracked infos ≡ []))
      ⊎ ((id : ℕ) × (rest : List EntryInfo) × (evict_one infos ≡ some (id, rest))
          × ((x : ℕ) → occurrences x (tracked infos) ≡ is_one x id + occurrences x (tracked rest)))
unfolding evict_one
evict_one_lem infos = elim (victim_cases infos) [
  | inl (e, empty) ↦ inl (rw (e, evict_one) refl, rw empty refl)
  | inr (info, e, is_in) ↦ inr (
    info.id,
    detach_queue info.id infos,
    rw (e, evict_one) refl,
    λ x. detached x info.id infos is_in,
  )
]

pub priority_fifo_policy-laws : {Name : Type 0} → PolicyLaws (priority_fifo_policy {Name = Name})
unfolding priority_fifo_policy move_to_stale_queue
priority_fifo_policy-laws = record {
  tracked = tracked;
  tracked-empty = refl;
  tracked-after_insert = attached;
  tracked-after_refresh = λ now e infos x h.
      omega (arith, attached now e (detach_queue e.id infos) x, detached x e.id infos h);
  tracked-before_use = λ now e infos x h. refl;
  tracked-timer_fires = λ id infos x h. omega (
    arith,
    detached x id infos h,
    tracked-append x (detach_queue id infos)
        (record { id = id; queue_type = queue_stale; move_stale_event = none }),
  );
  tracked-evict_one = evict_one_lem;
}
