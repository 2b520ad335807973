-- ===== src/Cs/PriorityFifo.antt =====
-- table/cs-policy-priority-fifo.cpp: unsolicited entries are evicted first, then stale ones, then the
-- others, each in the order of their queue. The three queues are one list of the infos of the entries,
-- each queue the infos of its type in their order: an entry that enters a queue goes to the end.
pub mod Laws
pub mod Eviction
use ndn_share.Base.{
  ℕ, Bool, true, false, ◌&&◌, Option, none, some, List, [], ◌∷◌, ◌++◌, ◌==◌, if◌then◌else◌, find_if,
  erase_first,
}
use ndn_share.Cs.Entry.{CsEntry, stale_time_of, is_stale, can_stale}
use ndn_share.Cs.Policy.{Policy}

pub data QueueType : Type 0 where
  queue_unsolicited queue_stale queue_fifo : QueueType

abbrev pub same_queue : QueueType → QueueType → Bool
same_queue queue_unsolicited queue_unsolicited = true
same_queue queue_stale queue_stale = true
same_queue queue_fifo queue_fifo = true
same_queue _ _ = false

-- `move_stale_event` is when the entry is to be moved to the queue of stale ones.
pub record EntryInfo : Type 0 where
  pub id : ℕ
  pub queue_type : QueueType
  pub move_stale_event : Option ℕ

module _ {Name : Type 0} where
  unfoldable pub info_of : (now : ℕ) → CsEntry Name → EntryInfo
  unfolding is_stale can_stale stale_time_of
  info_of now e =
      if e.is_unsolicited
      then record { id = e.id; queue_type = queue_unsolicited; move_stale_event = none }
      else if is_stale now e
      then record { id = e.id; queue_type = queue_stale; move_stale_event = none }
      else record {
        id = e.id;
        queue_type = queue_fifo;
        move_stale_event =
            if can_stale e then stale_time_of now e.packet.freshness_period else none;
      }

  unfoldable pub attach_queue : (now : ℕ) → CsEntry Name → List EntryInfo → List EntryInfo
  unfolding info_of
  attach_queue now e infos = infos ++ info_of now e ∷ []

unfoldable pub detach_queue : (id : ℕ) → List EntryInfo → List EntryInfo
detach_queue id infos = erase_first (λ info. info.id == id) infos

abbrev pub in_queue : QueueType → EntryInfo → Bool
in_queue q info = same_queue info.queue_type q

-- The timer of an entry in the queue FIFO fires.
unfoldable pub move_to_stale_queue : (id : ℕ) → List EntryInfo → List EntryInfo
unfolding detach_queue
move_to_stale_queue id infos =
    detach_queue id infos
    ++ record { id = id; queue_type = queue_stale; move_stale_event = none } ∷ []

-- The front of the first queue that is not empty.
unfoldable pub victim : List EntryInfo → Option EntryInfo
victim infos = elim (find_if (in_queue queue_unsolicited) infos) [
  | some info ↦ some info
  | none ↦ elim (find_if (in_queue queue_stale) infos) [
    | some info ↦ some info
    | none ↦ find_if (in_queue queue_fifo) infos
  ]
]

unfoldable pub evict_one : List EntryInfo → Option (ℕ × List EntryInfo)
unfolding victim detach_queue
evict_one infos = elim (victim infos) [
  | none ↦ none
  | some info ↦ some (info.id, detach_queue info.id infos)
]

unfoldable pub priority_fifo_policy : {Name : Type 0} → Policy Name (List EntryInfo)
unfolding attach_queue detach_queue evict_one move_to_stale_queue
priority_fifo_policy = record {
  empty = [];
  after_insert = attach_queue;
  after_refresh = λ now e infos. attach_queue now e (detach_queue e.id infos);
  before_use = λ now e infos. infos;
  evict_one = evict_one;
  timer_fires = move_to_stale_queue;
}
