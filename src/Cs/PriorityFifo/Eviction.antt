-- ===== src/Cs/PriorityFifo/Eviction.antt =====
-- Which entry the priority FIFO policy evicts.
use ndn_share.Base.{
  ℕ, ◌≡◌, refl, ap, inl, inr, Bool, true, false, Bool-cases, Option-cases, none, some, List, [],
  ◌∷◌, ◌++◌, ltb, find_if, any_of, arith,
}
use ndn_share.Cs.PriorityFifo.{
  QueueType, queue_unsolicited, queue_stale, queue_fifo, same_queue, in_queue, EntryInfo,
  detach_queue, victim, evict_one,
}

-- The order in which the queues are emptied.
abbrev pub rank : QueueType → ℕ
rank queue_unsolicited = 0
rank queue_stale = 1
rank queue_fifo = 2

-- The oldest of its queue, where the queues that are emptied first are empty.
pub record IsVictim (infos : List EntryInfo) (info : EntryInfo) : Type 0 where
  pub older : List EntryInfo
  pub newer : List EntryInfo
  pub stands : infos ≡ older ++ info ∷ newer
  pub oldest : any_of (in_queue info.queue_type) older ≡ false
  pub no_other_first :
      any_of (λ other. ltb (rank other.queue_type) (rank info.queue_type)) infos ≡ false

module _ {A : Type 0} where
  find_if-split :
      (p : A → Bool) (xs : List A) (a : A)
      → find_if p xs ≡ some a
      → (p a ≡ true)
        × ((older : List A) × ((newer : List A) × ((xs ≡ older ++ a ∷ newer)
                × (any_of p older ≡ false))))
  find_if-split p [] a h = absurd (cc)
  find_if-split p (x ∷ xs) a h = elim (Bool-cases (p x)) [
    | inl e ↦
        let same : x ≡ a = ground (arith, h, e) in
        (rw (← same) e, ([], (xs, (ap (λ y. y ∷ xs) same, refl))))
    | inr e ↦
        let (holds, (older, (newer, (stands, first)))) =
          find_if-split p xs a (ground (arith, h, e)) in
        (holds, (x ∷ older, (newer, (ap (◌∷◌ x) stands, rw e first))))
  ]

  find_if-any_of : (p : A → Bool) (xs : List A) → find_if p xs ≡ none → any_of p xs ≡ false
  find_if-any_of p [] h = refl
  find_if-any_of p (x ∷ xs) h = ground (arith, find_if-any_of p xs)

no_unsolicited :
    (infos : List EntryInfo)
    → any_of (λ (other : EntryInfo). ltb (rank other.queue_type) 0) infos ≡ false
no_unsolicited [] = refl
no_unsolicited (info ∷ infos) = ground (arith, no_unsolicited infos)

no_stale :
    (infos : List EntryInfo)
    → any_of (in_queue queue_unsolicited) infos ≡ false
    → any_of (λ (other : EntryInfo). ltb (rank other.queue_type) 1) infos ≡ false
no_stale [] a = refl
no_stale (info ∷ infos) a = ground (arith, no_stale infos)

no_fifo :
    (infos : List EntryInfo)
    → any_of (in_queue queue_unsolicited) infos ≡ false
    → any_of (in_queue queue_stale) infos ≡ false
    → any_of (λ (other : EntryInfo). ltb (rank other.queue_type) 2) infos ≡ false
no_fifo [] a b = refl
no_fifo (info ∷ infos) a b = ground (arith, no_fifo infos)

same_queue_lem : (q q' : QueueType) → same_queue q q' ≡ true → q ≡ q'
same_queue_lem queue_unsolicited queue_unsolicited h = refl
same_queue_lem queue_stale queue_stale h = refl
same_queue_lem queue_fifo queue_fifo h = refl
same_queue_lem _ _ h = absurd (ground arith)

queue-IsVictim :
    (infos : List EntryInfo) (q : QueueType) (info : EntryInfo)
    → find_if (in_queue q) infos ≡ some info
    → any_of (λ (other : EntryInfo). ltb (rank other.queue_type) (rank q)) infos ≡ false
    → IsVictim infos info
queue-IsVictim infos q info found first =
    let (holds, (older, (newer, (stands, oldest)))) = find_if-split _ infos info found in
    let same = same_queue_lem info.queue_type q holds in
    record {
      older = older;
      newer = newer;
      stands = stands;
      oldest = rw same oldest;
      no_other_first = rw same first;
    }

victim-IsVictim :
    (infos : List EntryInfo) (info : EntryInfo) → victim infos ≡ some info → IsVictim infos info
unfolding victim
victim-IsVictim infos info h = elim (Option-cases (find_if (in_queue queue_unsolicited) infos)) [
  | inr (i, e) ↦
      let same : i ≡ info = ground (arith, h, e) in
      rw (← same) (queue-IsVictim infos queue_unsolicited i e (no_unsolicited infos))
  | inl a ↦ elim (Option-cases (find_if (in_queue queue_stale) infos)) [
    | inr (i, e) ↦
        let same : i ≡ info = ground (arith, h, a, e) in
        rw (← same)
          (queue-IsVictim infos queue_stale i e (no_stale infos (find_if-any_of _ infos a)))
    | inl b ↦
        let e : find_if (in_queue queue_fifo) infos ≡ some info = ground (arith, h, a, b) in
        queue-IsVictim infos queue_fifo info e
          (no_fifo infos (find_if-any_of _ infos a) (find_if-any_of _ infos b))
  ]
]

-- An eviction takes the oldest of the first queue that is not empty, in the order unsolicited, stale,
-- FIFO.
pub evict_one-IsVictim :
    (infos rest : List EntryInfo) (id : ℕ)
    → evict_one infos ≡ some (id, rest)
    → (info : EntryInfo) × ((info.id ≡ id) × ((rest ≡ detach_queue id infos) × IsVictim infos info))
unfolding evict_one
evict_one-IsVictim infos rest id h = elim (Option-cases (victim infos)) [
  | inl nothing ↦ absurd (ground (arith, h, nothing))
  | inr (info, e) ↦
      (info, (ground (arith, h, e), (ground (arith, h, e), victim-IsVictim infos info e)))
]
