-- ===== src/Tests/Strategies.antt =====
-- best-route 2 at the entry of the other tests, whose Interest was sent to face 2.
use ndn_share.Base.{List, [], ◌∷◌}
use ndn_share.Fib.{NextHop}
use ndn_share.Strategies.BestRoute2.{after_receive_nack}
use ndn_share.Strategies.BestRoute2.Nacks.{NackChoice, after_receive_nack-NackChoice}
use ndn_share.Tests.Pit.{face, names, interest, entry}
use ndn_share.Tests.Fw.{faces}

abbrev next_hops : List NextHop
next_hops = record { face = face 1; cost = 10 } ∷ record { face = face 2; cost = 20 } ∷ []

after_receive_nack-NackChoice_example :
    NackChoice names 150 0
      (λ e. next_hops)
      30
      faces
      (face 2)
      (interest 77)
      50
      entry
      (after_receive_nack names 150 0 (λ e. next_hops) 30 faces (face 2) (interest 77) 50 entry)
after_receive_nack-NackChoice_example =
    after_receive_nack-NackChoice names 150 0 (λ e. next_hops) 30 faces (face 2) (interest 77) 50
      entry
