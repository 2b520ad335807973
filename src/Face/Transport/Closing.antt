-- ===== src/Face/Transport/Closing.antt =====
-- How a transport is closed (Transport::close, and the report of CLOSED that doClose ends in).
use ndn_share.Base.{◌≡◌, ◌∙◌, ◌≢◌, refl, ◌⊎◌, inl, inr, some, [], ◌∷◌, ◌++◌}
use ndn_share.Face.Transport.{
  TransportState, none_state, up, down, closing, failed, closed, Transport, set_state, close,
}
use ndn_share.Face.Transport.Lifecycle.{
  Change, is_closed, is_failed, set_state-Change, close-set_state, state_cases,
}

-- What closes a transport: close leaves it neither up nor down, and it takes the report of CLOSED.
pub record ClosesTo (t t' : Transport) : Type 0 where
  pub is_closing : close t ≡ some t'
  pub not_up : t'.state ≢ up
  pub not_down : t'.state ≢ down
  pub closed_transport : Transport
  pub is_reported : set_state t' closed ≡ some closed_transport
  pub is_closed : closed_transport.state ≡ closed

signalled : Transport → TransportState → Transport
signalled t new = record t { state = new; changes = t.changes ++ (t.state, new) ∷ [] }

reports_closed :
    (t : Transport)
    → (t.state ≡ closing) ⊎ (t.state ≡ failed) ⊎ (t.state ≡ closed)
    → (t' : Transport) × ((set_state t closed ≡ some t') × (t'.state ≡ closed))
unfolding signalled
reports_closed t h = elim (set_state-Change t closed) [
  | inl (same, kept) ↦ (t, (kept, same))
  | inr (inl (_, changed)) ↦ (signalled t closed, (changed, refl))
  | inr (inr (differs, stuck, _)) ↦ absurd (elim h [
    | inl c ↦ stuck (rw c is_closed)
    | inr (inl f) ↦ stuck (rw f is_failed)
    | inr (inr c) ↦ differs c
  ])
]

opened-ClosesTo :
    (t : Transport)
    → Change t.state closing
    → close t ≡ set_state t closing
    → (t' : Transport) × ClosesTo t t'
unfolding signalled
opened-ClosesTo t c asked = elim (set_state-Change t closing) [
  | inl (same, kept) ↦
      let (t'', (reported, done)) = reports_closed t (inl same) in
      (
        t,
        record {
          is_closing = asked ∙ kept;
          not_up = λ e. cc;
          not_down = λ e. cc;
          closed_transport = t'';
          is_reported = reported;
          is_closed = done;
        },
      )
  | inr (inl (_, changed)) ↦
      let (t'', (reported, done)) = reports_closed (signalled t closing) (inl refl) in
      (
        signalled t closing,
        record {
          is_closing = asked ∙ changed;
          not_up = λ e. cc;
          not_down = λ e. cc;
          closed_transport = t'';
          is_reported = reported;
          is_closed = done;
        },
      )
  | inr (inr (_, stuck, _)) ↦ absurd (stuck c)
]

-- close is not refused and leaves no transport up or down, and one that was closed, whatever its
-- state was but NONE, can then report that it is CLOSED and is.
pub close-ClosesTo : (t : Transport) → t.state ≢ none_state → (t' : Transport) × ClosesTo t t'
close-ClosesTo t is = elim (close-set_state t) [
  | inl (c, asked) ↦ opened-ClosesTo t c asked
  | inr (u, d, kept) ↦
      let (t'', (reported, done)) = reports_closed t (elim (state_cases t.state) [
        | inl e ↦ inr (inr e)
        | inr (inl (inl e)) ↦ inl e
        | inr (inl (inr e)) ↦ inr (inl e)
        | inr (inr (inl e)) ↦ absurd (is e)
        | inr (inr (inr (inl e))) ↦ absurd (u e)
        | inr (inr (inr (inr e))) ↦ absurd (d e)
      ]) in
      (
        t,
        record {
          is_closing = kept;
          not_up = u;
          not_down = d;
          closed_transport = t'';
          is_reported = reported;
          is_closed = done;
        },
      )
]
