-- ===== src/Cs/Lru.antt =====
-- table/cs-policy-lru.cpp: the least recently used entry is evicted. The queue has its oldest element
-- first.
pub mod Laws
use ndn_share.Base.{
  ℕ, Bool, true, false, Option, none, some, List, [], ◌∷◌, ◌++◌, ◌==◌, erase_first,
}
use ndn_share.Cs.Entry.{CsEntry}
use ndn_share.Cs.Policy.{Policy}

-- push_back inserts what is not there; what is there is relocated to the end.
unfoldable pub insert_to_queue : (id : ℕ) → (is_new_entry : Bool) → List ℕ → List ℕ
insert_to_queue id true queue = queue ++ id ∷ []
insert_to_queue id false queue = erase_first (λ x. x == id) queue ++ id ∷ []

-- The front of the queue.
unfoldable pub evict_front : List ℕ → Option (ℕ × List ℕ)
evict_front [] = none
evict_front (id ∷ queue) = some (id, queue)

unfoldable pub lru_policy : {Name : Type 0} → Policy Name (List ℕ)
unfolding insert_to_queue evict_front
lru_policy = record {
  empty = [];
  after_insert = λ now e queue. insert_to_queue e.id true queue;
  after_refresh = λ now e queue. insert_to_queue e.id false queue;
  before_use = λ now e queue. insert_to_queue e.id false queue;
  evict_one = evict_front;
  timer_fires = λ id queue. queue;
}
