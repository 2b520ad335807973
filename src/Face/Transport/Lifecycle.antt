-- ===== src/Face/Transport/Lifecycle.antt =====
-- The states that a transport goes through (Transport::setState), as a diagram, and its runs.
use ndn_share.Base.{
  ℕ, ◌≡◌, ◌≢◌, refl, ◌⊎◌, inl, inr, true, Bool-cases, none, some, List, [], ◌∷◌, ◌++◌, arith,
}
use ndn_share.Face.Transport.{
  TransportState, none_state, up, down, closing, failed, closed, same_state, TransportPacket,
  Transport, init, is_valid_change, set_state, close, send, receive, set_persistency,
}

-- The diagram: a face goes up and down until it is closed, or fails; then it can only be closed.
pub data Change : TransportState → TransportState → Type 0 where
  goes_down : Change up down
  comes_up : Change down up
  closes_up : Change up closing
  closes_down : Change down closing
  fails_up : Change up failed
  fails_down : Change down failed
  is_closed : Change closing closed
  is_failed : Change failed closed

pub data Chain
    : TransportState → List (TransportState × TransportState) → TransportState → Type 0 where
  start : (s : TransportState) → Chain s [] s
  then_change :
      {s t u : TransportState} {changes : List (TransportState × TransportState)}
      → Chain s changes t
      → Change t u
      → Chain s (changes ++ (t, u) ∷ []) u

is_valid_change-Change : (s t : TransportState) → is_valid_change s t ≡ true → Change s t
unfolding is_valid_change same_state
is_valid_change-Change up down h = goes_down
is_valid_change-Change up closing h = closes_up
is_valid_change-Change up failed h = fails_up
is_valid_change-Change down up h = comes_up
is_valid_change-Change down closing h = closes_down
is_valid_change-Change down failed h = fails_down
is_valid_change-Change closing closed h = is_closed
is_valid_change-Change failed closed h = is_failed
is_valid_change-Change _ _ h = absurd (ground arith)

Change-is_valid_change : {s t : TransportState} → Change s t → is_valid_change s t ≡ true
unfolding is_valid_change same_state
Change-is_valid_change goes_down = refl
Change-is_valid_change comes_up = refl
Change-is_valid_change closes_up = refl
Change-is_valid_change closes_down = refl
Change-is_valid_change fails_up = refl
Change-is_valid_change fails_down = refl
Change-is_valid_change is_closed = refl
Change-is_valid_change is_failed = refl

same_state_iff : (s t : TransportState) → same_state s t ≡ true → s ≡ t
unfolding same_state
same_state_iff none_state none_state h = refl
same_state_iff up up h = refl
same_state_iff down down h = refl
same_state_iff closing closing h = refl
same_state_iff failed failed h = refl
same_state_iff closed closed h = refl
same_state_iff _ _ h = absurd (ground arith)

same_state_refl : (s : TransportState) → same_state s s ≡ true
unfolding same_state
same_state_refl s = ground arith

-- setState stays, changes along the diagram and says so, or throws, as the diagram tells.
pub set_state-Change :
    (t : Transport) (new : TransportState)
    → ((t.state ≡ new) × (set_state t new ≡ some t))
      ⊎ (Change t.state new
          × (set_state t new
              ≡ some (record t { state = new; changes = t.changes ++ (t.state, new) ∷ [] })))
      ⊎ ((t.state ≢ new) × (¬ Change t.state new) × (set_state t new ≡ none))
unfolding set_state
set_state-Change t new = elim (Bool-cases (same_state t.state new)) [
  | inl e ↦ inl (same_state_iff t.state new e, rw e refl)
  | inr differs ↦ inr (elim (Bool-cases (is_valid_change t.state new)) [
    | inl e ↦ inl (is_valid_change-Change t.state new e, rw (differs, e) refl)
    | inr e ↦ inr (
      λ same. ground (arith, differs, same_state_refl new),
      λ c. ground (arith, e, Change-is_valid_change c),
      rw (differs, e) refl,
    )
  ])
]

-- What happens to a transport.
pub data Step (persistency_none : ℕ) : Transport → Transport → Type 0 where
  changes_state :
      {t t' : Transport} (new : TransportState)
      → set_state t new ≡ some t'
      → Step persistency_none t t'
  closes : {t t' : Transport} → close t ≡ some t' → Step persistency_none t t'
  sends : (t : Transport) (p : TransportPacket) → Step persistency_none t (send t p)
  receives : (t : Transport) (p : TransportPacket) → Step persistency_none t (receive t p)
  changes_persistency :
      {t t' : Transport} (new : ℕ)
      → set_persistency persistency_none t new ≡ some t'
      → Step persistency_none t t'

pub data Run (persistency_none : ℕ) (t : Transport) : Transport → Type 0 where
  begin : Run persistency_none t t
  then_step :
      {t' t'' : Transport}
      → Run persistency_none t t'
      → Step persistency_none t' t''
      → Run persistency_none t t''

-- The signals so far lead from UP to the state.
abbrev pub IsSignalled : Transport → Type 0
IsSignalled t = Chain up t.changes t.state

set_state-IsSignalled :
    (t t' : Transport) (new : TransportState)
    → IsSignalled t
    → set_state t new ≡ some t'
    → IsSignalled t'
set_state-IsSignalled t t' new s e = elim (set_state-Change t new) [
  | inl (_, same) ↦ let eq : t ≡ t' = cc in rw (← eq) s
  | inr (inl (c, changed)) ↦
      let eq : record t { state = new; changes = t.changes ++ (t.state, new) ∷ [] } ≡ t' = cc in
      rw (← eq) (then_change s c)
  | inr (inr (_, _, refused)) ↦ absurd (cc)
]

pub is_open_cases : (s : TransportState) → (s ≡ up) ⊎ (s ≡ down) ⊎ ((s ≢ up) × (s ≢ down))
is_open_cases up = inl refl
is_open_cases down = inr (inl refl)
is_open_cases none_state = inr (inr (λ e. cc, λ e. cc))
is_open_cases closing = inr (inr (λ e. cc, λ e. cc))
is_open_cases failed = inr (inr (λ e. cc, λ e. cc))
is_open_cases closed = inr (inr (λ e. cc, λ e. cc))

pub state_cases :
    (s : TransportState)
    → (s ≡ closed) ⊎ ((s ≡ closing) ⊎ (s ≡ failed)) ⊎ (s ≡ none_state) ⊎ (s ≡ up) ⊎ (s ≡ down)
state_cases closed = inl refl
state_cases closing = inr (inl (inl refl))
state_cases failed = inr (inl (inr refl))
state_cases none_state = inr (inr (inl refl))
state_cases up = inr (inr (inr (inl refl)))
state_cases down = inr (inr (inr (inr refl)))

-- close changes the state to CLOSING where the transport is up or down, and never throws.
pub close-set_state :
    (t : Transport)
    → (Change t.state closing × (close t ≡ set_state t closing))
      ⊎ ((t.state ≢ up) × (t.state ≢ down) × (close t ≡ some t))
unfolding close
close-set_state t = elim (is_open_cases t.state) [
  | inl e ↦ inl (rw e closes_up, rw e refl)
  | inr (inl e) ↦ inl (rw e closes_down, rw e refl)
  | inr (inr (a, b)) ↦ inr (a, b, ground arith)
]

close-IsSignalled : (t t' : Transport) → IsSignalled t → close t ≡ some t' → IsSignalled t'
close-IsSignalled t t' s e = elim (close-set_state t) [
  | inl (_, c) ↦ set_state-IsSignalled t t' closing s (cc)
  | inr (_, _, same) ↦ let eq : t ≡ t' = cc in rw (← eq) s
]

send-kept :
    (t : Transport) (p : TransportPacket)
    → ((send t p).state ≡ t.state) × ((send t p).changes ≡ t.changes)
unfolding send
send-kept t p = (ground arith, ground arith)

set_persistency-kept :
    (persistency_none : ℕ) (t t' : Transport) (new : ℕ)
    → set_persistency persistency_none t new ≡ some t'
    → (t'.state ≡ t.state) × (t'.changes ≡ t.changes) × (t'.sent ≡ t.sent)
unfolding set_persistency
set_persistency-kept persistency_none t t' new e = (ground arith, ground arith, ground arith)

module _ {persistency_none : ℕ} where
  Step-IsSignalled :
      {t t' : Transport} → Step persistency_none t t' → IsSignalled t → IsSignalled t'
  unfolding receive
  Step-IsSignalled {t} {t'} (changes_state new e) s = set_state-IsSignalled t t' new s e
  Step-IsSignalled {t} {t'} (closes e) s = close-IsSignalled t t' s e
  Step-IsSignalled (sends t p) s = let (state, changes) = send-kept t p in rw (state, changes) s
  Step-IsSignalled (receives t p) s = s
  Step-IsSignalled {t} {t'} (changes_persistency new e) s =
      let (state, changes, _) = set_persistency-kept persistency_none t t' new e in
      rw (state, changes) s

  -- In every run of a new transport, the signalled changes of state are a path of the diagram from
  -- UP to its state.
  pub Run-IsSignalled :
      {t : Transport} → Run persistency_none (init persistency_none) t → IsSignalled t
  unfolding init
  Run-IsSignalled begin = start up
  Run-IsSignalled (then_step r st) = Step-IsSignalled st (Run-IsSignalled r)

-- A transport that is being closed.
pub record IsEnding (t t' : Transport) : Type 0 where
  pub not_up : t'.state ≢ up
  pub not_down : t'.state ≢ down
  pub nothing_sent : t'.sent ≡ t.sent

not-Change-up : {s : TransportState} → Change s up → s ≡ down
not-Change-up comes_up = refl

not-Change-down : {s : TransportState} → Change s down → s ≡ up
not-Change-down goes_down = refl

set_state-IsEnding :
    (t t' t'' : Transport) (new : TransportState)
    → IsEnding t t'
    → set_state t' new ≡ some t''
    → IsEnding t t''
set_state-IsEnding t t' t'' new h e = elim (set_state-Change t' new) [
  | inl (_, same) ↦ let eq : t' ≡ t'' = cc in rw (← eq) h
  | inr (inl (c, changed)) ↦
      let eq : record t' { state = new; changes = t'.changes ++ (t'.state, new) ∷ [] } ≡ t'' = cc in
      rw (← eq) (record {
        not_up = λ is. h.not_down (not-Change-up (rw (← is) c));
        not_down = λ is. h.not_up (not-Change-down (rw (← is) c));
        nothing_sent = h.nothing_sent;
      })
  | inr (inr (_, _, refused)) ↦ absurd (cc)
]

module _ {persistency_none : ℕ} where
  Step-IsEnding :
      (t : Transport) {t' t'' : Transport}
      → Step persistency_none t' t''
      → IsEnding t t'
      → IsEnding t t''
  unfolding receive send
  Step-IsEnding t {t'} {t''} (changes_state new e) h = set_state-IsEnding t t' t'' new h e
  Step-IsEnding t {t'} {t''} (closes e) h = elim (close-set_state t') [
    | inl (_, c) ↦ set_state-IsEnding t t' t'' closing h (cc)
    | inr (_, _, same) ↦ let eq : t' ≡ t'' = cc in rw (← eq) h
  ]
  Step-IsEnding t (sends t' p) h =
      let same : send t' p ≡ t' = ground (arith, h.not_up, h.not_down) in rw same h
  Step-IsEnding t (receives t' p) h = record {
    not_up = h.not_up;
    not_down = h.not_down;
    nothing_sent = h.nothing_sent;
  }
  Step-IsEnding t {t'} {t''} (changes_persistency new e) h =
      let (state, _, sent) = set_persistency-kept persistency_none t' t'' new e in
      record {
        not_up = rw state h.not_up;
        not_down = rw state h.not_down;
        nothing_sent = rw sent h.nothing_sent;
      }

  -- A transport that is neither up nor down never is again, and sends nothing more, whatever
  -- happens to it.
  pub Run-IsEnding :
      (t : Transport) {t' : Transport}
      → Run persistency_none t t'
      → t.state ≢ up
      → t.state ≢ down
      → IsEnding t t'
  Run-IsEnding t begin u d = record { not_up = u; not_down = d; nothing_sent = refl }
  Run-IsEnding t (then_step r st) u d = Step-IsEnding t st (Run-IsEnding t r u d)
