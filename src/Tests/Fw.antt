-- ===== src/Tests/Fw.antt =====
-- The forwarder at concrete packets: faces 1 and 2, and a strategy that sends to face 2.
use ndn_share.Base.{
  ℕ, ◌≡◌, ◌≢◌, refl, inr, true, Option, none, some, [], ◌∷◌, update_first, ◌==◌, pos, arith,
  ℕ_discrete, max_element,
}
use ndn_share.Base.Assoc.{lookup, insert}
use mathlib.Core.List.{List}
use ndn_share.Face.{Face, invalid_face_id}
use ndn_share.Packet.{Data}
use ndn_share.Pit.{insert_or_update_in_record, insert_or_update_out_record}
use ndn_share.Pit.Algorithm.{find_duplicate_nonce, scan_in_records, scan_out_records}
use ndn_share.Fw.FaceTable.{FaceTable, add_reserved, add_impl, init, add, get, id_of, remove_face}
use ndn_share.Fw.FaceTable.Ids.{
  IsValid, at_start, after_add, after_add_reserved, after_remove, IsReachable-IsValid, init-IsValid,
  add-get, remove_face-get,
}
use ndn_share.Fw.State.{Forwarder, interest_to, data_to, find, same_interest, entry_of, change}
use ndn_share.Fw.Uri.{unqueried, find_from, starts_with, is_query}
use ndn_share.Fw.Interfaces.{Strategy, send_interest, ContentStore, drop_all}
use ndn_share.Fw.Outgoing.{Env, is_violating_localhost}
use ndn_share.Fw.Outgoing.Scoped.{all_allowed}
use ndn_share.Fw.Incoming.{
  on_incoming_interest, on_incoming_data, send_to_downstreams, restore_queried,
}
use ndn_share.Fw.Incoming.Loop.{IsRefused, on_incoming_interest-loop}
use ndn_share.Fw.Incoming.Downstreams.{may_have, send_to_downstreams-outbox}
use ndn_share.Fw.Run.{begin, then_step, interest_arrives, data_arrives}
use ndn_share.Fw.Run.Scope.{Run-Allowed}
use ndn_share.Tests.Pit.{face, names, interest, entry}
use ndn_share.Tests.Dnl.{hash, fresh}

abbrev env : Env ℕ
env = record {
  names = names;
  matches_data = λ i d. i.name == d.name;
  make_entry = hash;
  fuzz_word = λ word. word;
  default_lifetime = 4_000;
}

abbrev strategy : Strategy ℕ
strategy = record {
  after_receive_interest = λ t f i e. send_interest e.id (face 2) none ∷ [];
  after_receive_nack = λ t f i reason e. [];
  before_satisfy_interest = λ t e f d. [];
  before_expire_pending_interest = λ t e. [];
}

-- A store that never has anything.
abbrev store : ContentStore ℕ Unit
store = record { find_data = λ cs i. (tt, none); insert_data = λ cs d is_unsolicited. tt }

abbrev pub faces : FaceTable
faces = record {
  faces = (256, face 1) ∷ (257, face 2) ∷ [];
  last_face_id = 257;
  ids = (1, 256) ∷ (2, 257) ∷ [];
}

abbrev forwarder : Forwarder ℕ Unit
forwarder = record {
  counters = record {
    n_in_interests = 0;
    n_out_interests = 0;
    n_in_data = 0;
    n_out_data = 0;
    n_in_nacks = 0;
    n_out_nacks = 0;
  };
  face_table = faces;
  pit = [];
  last_entry_id = 0;
  cs = tt;
  dead_nonces = fresh;
  outbox = [];
}

abbrev packet : Data ℕ
packet = record { name = 8; content = 5; freshness_period = pos 1_000 }

abbrev pending : Forwarder ℕ Unit
pending = on_incoming_interest env strategy store 5 forwarder (face 1) (interest 77) 150

abbrev answered : Forwarder ℕ Unit
answered = on_incoming_data env strategy store 7 drop_all pending (face 2) packet

Run-Allowed_example : all_allowed names answered.outbox ≡ true
unfolding all_allowed
Run-Allowed_example =
    Run-Allowed env (λ now. strategy) (λ now. store) drop_all 150 forwarder 7 answered
      (then_step (then_step (begin 0) (omega arith) (interest_arrives (face 1) (interest 77)))
        (omega arith) (data_arrives (face 2) packet))
      refl

-- Interest and Data go through.
exchange : answered.outbox ≡ data_to (face 1) packet ∷ interest_to (face 2) (interest 77) ∷ []
unfolding on_incoming_data on_incoming_interest entry_of change max_element update_first lookup
    ℕ_discrete is_query
exchange = refl

-- The entry of nonce 77 is in the PIT.
abbrev waiting : Forwarder ℕ Unit
waiting = record forwarder { pit = entry ∷ [] }

on_incoming_interest-loop_example :
    IsRefused waiting
      (face 2)
      150
      (on_incoming_interest env strategy store 30 waiting (face 2) (interest 77) 150)
unfolding is_violating_localhost find same_interest restore_queried unqueried find_from starts_with
    find_duplicate_nonce scan_in_records scan_out_records insert_or_update_in_record
    insert_or_update_out_record update_first ℕ_discrete
on_incoming_interest-loop_example =
    on_incoming_interest-loop env strategy store 30 waiting (face 2) (interest 77) 150 refl
      (inr (entry, refl, ground arith))

send_to_downstreams-outbox_example :
    (send_to_downstreams env (face 2) packet forwarder (face 1 ∷ face 2 ∷ [])).outbox
    ≡ data_to (face 1) packet ∷ []
unfolding may_have id_of lookup ℕ_discrete is_violating_localhost
send_to_downstreams-outbox_example =
    send_to_downstreams-outbox env (face 2) packet forwarder (face 1 ∷ face 2 ∷ [])

add-get_example :
    (get init 256 ≡ none)
    × (get (add init (face 1)) 256 ≡ some (face 1))
    × (id_of (add init (face 1)) (face 1) ≡ 256)
    × ((id : ℕ) → id ≢ 256 → get (add init (face 1)) id ≡ get init id)
unfolding init get lookup
add-get_example = add-get init (face 1) init-IsValid refl

abbrev cut_off : FaceTable × Option Face
cut_off = remove_face faces 256

remove_face-get_example :
    (cut_off.1 ≡ some (face 1))
    × (get cut_off.0 256 ≡ none)
    × (id_of cut_off.0 (face 1) ≡ invalid_face_id)
    × ((j : ℕ) → j ≢ 256 → get cut_off.0 j ≡ get faces j)
unfolding get lookup ℕ_discrete
remove_face-get_example = remove_face-get faces 256 (face 1) refl

-- Face 2 gets the FaceId 1, as the internal face does; face 1 is added, and removed again.
abbrev emptied : FaceTable
emptied = (remove_face (add (add_reserved init (face 2) 1) (face 1)) 256).0

IsReachable-IsValid_example : IsValid emptied
unfolding init get lookup id_of add add_reserved add_impl insert ℕ_discrete
IsReachable-IsValid_example = IsReachable-IsValid emptied (
    after_remove 256 (face 1) refl (
      after_add (face 1) refl
        (after_add_reserved (face 2) 1 (omega arith) (omega arith) refl refl at_start)))
