-- ===== src/DeadNonceList/Retention.antt =====
-- How long DeadNonceList keeps an entry.
use ndn_share.Base.{
  ℕ, zero, suc, ◌+◌, ◌-◌, ◌≤◌, ◌<◌, min, ◌≡◌, refl, ap, ◌∙◌, inl, inr, true, Bool-cases, List, [],
  ◌∷◌, ◌++◌, leb, ◌==◌, length, length-append, drop, any_of, arith,
}
use mathlib.Core.List.{append_assoc}
use ndn_share.DeadNonceList.{
  DeadNonceList, mark_entry, evict_limit, has_entry, evict_entries, add_entry, mark, has, add,
  adjusted_capacity, adjust_capacity,
}
use ndn_share.DeadNonceList.Capacity.{Event, adds, marks, adjusts, step, run}

drop-append {ℓ} :
    {A : Type ℓ} (n : ℕ) (xs ys : List A) → n ≤ length xs → drop n (xs ++ ys) ≡ drop n xs ++ ys
drop-append zero xs ys h = refl
drop-append (suc n) [] ys h = elim h [ ]
drop-append (suc n) (x ∷ xs) ys h = drop-append n xs ys (omega arith)

any_of-middle :
    (entry : ℕ) (pre post : List ℕ) → any_of (λ x. x == entry) (pre ++ entry ∷ post) ≡ true
any_of-middle entry [] post = ground arith
any_of-middle entry (x ∷ pre) post = ground (arith, any_of-middle entry pre post)

-- The entry stands in the queue with fewer than `n` entries behind it.
pub record Recent (d : DeadNonceList) (entry n : ℕ) : Type 0 where
  pub before : List ℕ
  pub behind : List ℕ
  pub stands : d.queue ≡ before ++ entry ∷ behind
  pub few : length behind < n

Recent-has_entry : (d : DeadNonceList) (entry n : ℕ) → Recent d entry n → has_entry d entry ≡ true
unfolding has_entry
Recent-has_entry d entry n r = rw (r.stands, any_of) (any_of-middle entry r.before r.behind)

evict_entries-Recent :
    (d : DeadNonceList) (entry : ℕ)
    → (n : ℕ) (r : Recent d entry n) → n ≤ d.capacity
    → Recent (evict_entries d) entry n
unfolding evict_entries
evict_entries-Recent d entry n r small =
    let over = length d.queue - d.capacity in
    let len : length d.queue ≡ length r.before + suc (length r.behind) =
      ap length r.stands ∙ length-append r.before (entry ∷ r.behind) in
    elim (Bool-cases (leb over 0)) [
      | inl fits ↦ rw fits r
      | inr full ↦ rw full (record {
        before = drop (min over evict_limit) r.before;
        behind = r.behind;
        stands =
            ap (drop (min over evict_limit)) r.stands
            ∙ drop-append (min over evict_limit) r.before (entry ∷ r.behind)
                (omega (arith, len, r.few));
        few = r.few;
      })
    ]

push-Recent :
    (d d' : DeadNonceList) (entry new n : ℕ)
    → d'.queue ≡ d.queue ++ new ∷ []
    → Recent d entry n
    → Recent d' entry (suc n)
push-Recent d d' entry new n pushed r = record {
  before = r.before;
  behind = r.behind ++ new ∷ [];
  stands =
      pushed
      ∙ ap (λ q. q ++ new ∷ []) r.stands
      ∙ append_assoc r.before (entry ∷ r.behind) (new ∷ []);
  few = omega (arith, length-append r.behind (new ∷ []), r.few);
}

-- How many entries the events insert, MARKs included.
abbrev pub n_insertions : List Event → ℕ
n_insertions [] = 0
n_insertions (adds entry ∷ rest) = suc (n_insertions rest)
n_insertions (marks ∷ rest) = suc (n_insertions rest)
n_insertions (adjusts ∷ rest) = n_insertions rest

-- The least capacity that the list has during the events.
abbrev pub least_capacity : DeadNonceList → List Event → ℕ
least_capacity d [] = d.capacity
least_capacity d (e ∷ rest) = min d.capacity (least_capacity (step d e) rest)

capacity-evict_entries : (d : DeadNonceList) → (evict_entries d).capacity ≡ d.capacity
unfolding evict_entries
capacity-evict_entries d = ground arith

capacity-add_entry : (d : DeadNonceList) (new : ℕ) → (add_entry d new).capacity ≡ d.capacity
unfolding add_entry
capacity-add_entry d new = capacity-evict_entries (record d { queue = d.queue ++ new ∷ [] })

capacity-mark : (d : DeadNonceList) → (mark d).capacity ≡ d.capacity
unfolding mark
capacity-mark d = refl

queue-mark : (d : DeadNonceList) → (mark d).queue ≡ d.queue ++ mark_entry ∷ []
unfolding mark
queue-mark d = refl

add_entry-Recent :
    (d : DeadNonceList) (entry new n : ℕ)
    → suc n ≤ d.capacity
    → Recent d entry n
    → Recent (add_entry d new) entry (suc n)
unfolding add_entry
add_entry-Recent d entry new n room r =
    let pushed = record d { queue = d.queue ++ new ∷ [] } in
    let r' = push-Recent d pushed entry new n refl r in
    evict_entries-Recent pushed entry (suc n) r' room

adjust_capacity-Recent :
    (d : DeadNonceList) (entry n : ℕ)
    → n ≤ (adjust_capacity d).capacity
    → Recent d entry n
    → Recent (adjust_capacity d) entry n
unfolding adjust_capacity
adjust_capacity-Recent d entry n room r =
    let adjusted = record d { capacity = adjusted_capacity d; actual_mark_counts = [] } in
    let r' : Recent adjusted entry n = record {
      before = r.before;
      behind = r.behind;
      stands = r.stands;
      few = r.few;
    } in
    evict_entries-Recent adjusted entry n r' (rw (← capacity-evict_entries adjusted) room)

least_capacity-le : (d : DeadNonceList) (es : List Event) → least_capacity d es ≤ d.capacity
least_capacity-le d [] = omega arith
least_capacity-le d (e ∷ es) = omega arith

run-has_entry :
    (d : DeadNonceList) (entry n : ℕ) (es : List Event)
    → n + n_insertions es ≤ least_capacity d es
    → Recent d entry n
    → has_entry (run d es) entry ≡ true
unfolding run step
run-has_entry d entry n [] room r = Recent-has_entry d entry n r
run-has_entry d entry n (adds new ∷ rest) room r =
    run-has_entry (add_entry d new) entry (suc n) rest (omega (arith, room))
      (add_entry-Recent d entry new n (omega (arith, room)) r)
run-has_entry d entry n (marks ∷ rest) room r =
    run-has_entry (mark d) entry (suc n) rest (omega (arith, room))
      (push-Recent d (mark d) entry mark_entry n (queue-mark d) r)
run-has_entry d entry n (adjusts ∷ rest) room r =
    run-has_entry (adjust_capacity d) entry n rest (omega (arith, room)) (
      adjust_capacity-Recent d entry n
        (omega (arith, room, least_capacity-le (adjust_capacity d) rest)) r)

module _ {Name : Type 0} (make_entry : Name → ℕ → ℕ) where
  -- A nonce that was recorded is found, whatever happens to the list, as long as, with it, at most as
  -- many entries were inserted, MARKs included, as the least capacity since then allows.
  pub has-run-add :
      (d : DeadNonceList) (name : Name) (nonce : ℕ) (es : List Event)
      → suc (n_insertions es) ≤ least_capacity (add make_entry d name nonce) es
      → has make_entry (run (add make_entry d name nonce) es) name nonce ≡ true
  unfolding has add add_entry
  has-run-add d name nonce es room =
      let entry = make_entry name nonce in
      let pushed = record d { queue = d.queue ++ entry ∷ [] } in
      let r : Recent pushed entry 1 = record {
        before = d.queue;
        behind = [];
        stands = refl;
        few = omega arith;
      } in
      let within = least_capacity-le (evict_entries pushed) es in
      run-has_entry (evict_entries pushed) entry 1 es (omega (arith, room)) (
        evict_entries-Recent pushed entry 1 r
          (omega (arith, room, within, capacity-evict_entries pushed)))
