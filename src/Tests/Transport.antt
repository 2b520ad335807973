-- ===== src/Tests/Transport.antt =====
-- A transport that goes down, is closed while down, and is closed at last.
use ndn_share.Base.{◌≡◌, ◌≢◌, refl, ◌⊎◌, none, some, [], ◌∷◌}
use ndn_share.Face.Transport.{
  up, down, closing, same_state, is_valid_change, packet_of, Transport, init, set_state, close,
  send,
}
use ndn_share.Face.Transport.Closing.{ClosesTo, close-ClosesTo}
use ndn_share.Face.Transport.Lifecycle.{
  Change, set_state-Change, begin, then_step, changes_state, closes, sends, IsSignalled,
  Run-IsSignalled, IsEnding, Run-IsEnding,
}

abbrev recovering : Transport
recovering = record (init 0) { state = down; changes = (up, down) ∷ [] }

abbrev ending : Transport
ending = record recovering { state = closing; changes = (up, down) ∷ (down, closing) ∷ [] }

set_state-Change_example :
    ((recovering.state ≡ closing) × (set_state recovering closing ≡ some recovering))
    ⊎ (Change down closing × (set_state recovering closing ≡ some ending))
    ⊎ ((recovering.state ≢ closing)
        × (¬ Change down closing)
        × (set_state recovering closing ≡ none))
unfolding init
set_state-Change_example = set_state-Change recovering closing

Run-IsSignalled_example : IsSignalled ending
unfolding init set_state close same_state is_valid_change
Run-IsSignalled_example = Run-IsSignalled (
    then_step (then_step begin (changes_state {t = init 0} {t' = recovering} down refl))
      (closes {t = recovering} {t' = ending} refl))

Run-IsEnding_example : IsEnding ending (send ending (packet_of (7 ∷ [])))
unfolding init
Run-IsEnding_example =
    Run-IsEnding {persistency_none = 0} ending (then_step begin (sends ending (packet_of (7 ∷ []))))
      (λ e. cc) (λ e. cc)

close-ClosesTo_example : (t' : Transport) × ClosesTo recovering t'
unfolding init
close-ClosesTo_example = close-ClosesTo recovering (λ e. cc)
