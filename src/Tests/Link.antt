-- ===== src/Tests/Link.antt =====
-- The link service at concrete packets: one of 30 bytes over an MTU of 60 makes three fragments.
use ndn_share.Base.{
  ℕ, ◌+◌, ◌-◌, ◌≤◌, ◌≡◌, refl, ◌⊎◌, true, false, Option, none, some, List, [], ◌∷◌, ◌++◌, length,
  replicate, arith,
}
use ndn_share.Base.{ℕ_discrete}
use ndn_share.Base.Assoc.{lookup, insert}
use ndn_share.Link.Packet.{Bytes, LpPacket, Wire, empty_packet, payload, word}
use ndn_share.Link.Fragmenter.{
  fragment_packet, first_header_size, sum_headers, frag_count, populate, default_options,
}
use ndn_share.Link.Fragmenter.Fragments.{Outcome, KeepsHeaders, fragment_packet-Outcome}
use ndn_share.Link.Fragmenter.Sizes.{HasTlvSizes, AllFit, fragment_packet-AllFit}
use ndn_share.Link.Reassembler.{
  Reassembler, nothing, complete, Key-discrete, slot_at, receive_fragment,
}
use ndn_share.Link.Reassembler.Message.{IsMessage}
use ndn_share.Link.Reassembler.Delivery.{Order, deliver, InRange, Distinct, deliver_all}
use ndn_share.Link.Reassembler.Invariant.{
  IsValid, receives, times_out, after_events, after_events-IsValid,
}
use ndn_share.Link.Service.{
  assign_sequences, Service, init, send_net_packet, do_receive_packet, NetCodec, interest_type,
}
use ndn_share.Link.Service.Sending.{send_net_packet-n_out_over_mtu}
use ndn_share.Link.Service.Receiving.{IsUntagged, do_receive_packet-IsUntagged}
use ndn_share.Link.Service.RoundTrip.{round_trip}

abbrev element_size : Option ℕ → ℕ
element_size none = 0
element_size (some n) = 10

-- A wire on which every number takes ten bytes.
abbrev wire : Wire
wire = record {
  size = λ p.
      20
      + element_size p.sequence
      + element_size p.frag_index
      + element_size p.frag_count
      + length (payload p);
  type = λ p. 100;
  elements = λ p. (80, length (payload p)) ∷ [];
  lp_packet_type = 100;
  fragment_type = 80;
}

abbrev packet : LpPacket
packet = record empty_packet { fragment = some (replicate 30 7); incoming_face_id = some 9 }

wire-HasTlvSizes : HasTlvSizes wire packet
wire-HasTlvSizes = record {
  whole = omega arith;
  first = λ sequence index count bytes. omega arith;
  other = λ sequence index count bytes. omega arith;
}

abbrev reassembler : Reassembler
reassembler = record {
  options = record { max_fragments = 400; reassembly_timeout = 500_000_000 };
  partial_packets = [];
}

abbrev service : Service
service =
    init
      (record {
        allow_local_fields = false;
        allow_fragmentation = true;
        allow_reassembly = true;
        fragmenter = default_options;
      })
      reassembler

-- Every block of bytes is well-formed.
abbrev parse : Bytes → Option Bytes
parse bytes = some bytes

abbrev sent : List LpPacket
sent = (send_net_packet wire service (some 60) packet).1

abbrev order : Order
order = (5, 2) ∷ (6, 0) ∷ (9, 1) ∷ []

abbrev fragments : List LpPacket
fragments = (fragment_packet wire default_options packet 60).1

three_fragments : length sent ≡ 3
unfolding send_net_packet fragment_packet first_header_size sum_headers frag_count populate
    assign_sequences
three_fragments = refl

delivered :
    (deliver parse reassembler 1 sent order).1
    ≡ nothing ∷ nothing ∷ complete (replicate 30 7) (slot_at sent 0) ∷ []
unfolding send_net_packet fragment_packet first_header_size sum_headers frag_count populate
    assign_sequences deliver receive_fragment lookup insert Key-discrete ℕ_discrete word
delivered = refl

order-InRange : InRange 3 order
order-InRange = (omega arith, (omega arith, (omega arith, tt)))

order-Distinct : Distinct order
order-Distinct = ((ground arith, (ground arith, tt)), ((ground arith, tt), (tt, tt)))

round_trip_example :
    ((deliver parse reassembler 1 sent order).1
      ≡ replicate (length sent - 1) nothing ++ complete (replicate 30 7) (slot_at sent 0) ∷ [])
    × KeepsHeaders packet (slot_at sent 0 ∷ [])
unfolding send_net_packet fragment_packet first_header_size sum_headers frag_count populate
    assign_sequences lookup word
round_trip_example =
    round_trip parse wire service 60 packet wire-HasTlvSizes (omega arith) refl sent reassembler 1
      order (replicate 30 7) refl (omega arith) (omega arith) (omega arith) refl order-InRange
      order-Distinct refl refl

fragment_packet-Outcome_example :
    Outcome wire default_options packet 60 (fragment_packet wire default_options packet 60)
fragment_packet-Outcome_example =
    fragment_packet-Outcome wire default_options packet 60 (omega arith)

send_net_packet-n_out_over_mtu_example :
    (send_net_packet wire service (some 60) packet).0.n_out_over_mtu ≡ 0
send_net_packet-n_out_over_mtu_example =
    send_net_packet-n_out_over_mtu wire service 60 packet wire-HasTlvSizes (omega arith) refl

fragment_packet-AllFit_example :
    ((fragments ≡ packet ∷ []) × (wire.size packet ≤ 60))
    ⊎ ((2 ≤ length fragments) × AllFit wire 60 fragments)
unfolding fragment_packet first_header_size sum_headers frag_count populate
fragment_packet-AllFit_example =
    fragment_packet-AllFit wire default_options packet 60 wire-HasTlvSizes (omega arith) fragments
      refl

-- Two fragments of a message whose first has sequence number 6, on an endpoint 1.
abbrev first_half : LpPacket
first_half = record empty_packet {
  sequence = some 6;
  frag_index = some 0;
  frag_count = some 2;
  fragment = some (1 ∷ []);
}

abbrev second_half : LpPacket
second_half = record empty_packet {
  sequence = some 7;
  frag_index = some 1;
  frag_count = some 2;
  fragment = some (2 ∷ []);
}

abbrev halves : List LpPacket
halves = first_half ∷ second_half ∷ []

halves-IsMessage : IsMessage 6 2 0 halves
unfolding word
halves-IsMessage = (
  record {
    sequence_number = 6;
    numbered = refl;
    counted = refl;
    sequenced = refl;
    identified = refl;
  },
  (
    record {
      sequence_number = 7;
      numbered = refl;
      counted = refl;
      sequenced = refl;
      identified = refl;
    },
    tt,
  ),
)

deliver_all_example :
    ((deliver parse reassembler 1 halves ((5, 1) ∷ (8, 0) ∷ [])).1
      ≡ nothing ∷ complete (1 ∷ 2 ∷ []) first_half ∷ [])
    × (lookup Key-discrete
          (1, 6)
          (deliver parse reassembler 1 halves ((5, 1) ∷ (8, 0) ∷ [])).0.partial_packets
        ≡ none)
unfolding lookup
deliver_all_example =
    deliver_all parse 1 6 2 halves (1 ∷ 2 ∷ []) halves-IsMessage refl (omega arith) refl reassembler
      ((5, 1) ∷ (8, 0) ∷ []) refl (omega arith) (omega arith, (omega arith, tt))
      ((ground arith, tt), (tt, tt)) refl

after_events-IsValid_example : IsValid (
    after_events parse reassembler
      (receives 3 1 second_half ∷ receives 4 2 first_half ∷ times_out (1, 6) ∷ []))
after_events-IsValid_example =
    after_events-IsValid parse reassembler
      (receives 3 1 second_half ∷ receives 4 2 first_half ∷ times_out (1, 6) ∷ []) refl

-- Every block is an Interest.
abbrev codec : NetCodec Bytes Bytes Bytes
codec = record {
  type = λ b. interest_type;
  make_interest = λ b. some b;
  make_data = λ b. some b;
  is_nack_header = λ n. true;
  is_cache_policy = λ n. true;
}

abbrev tagged : LpPacket
tagged = record packet { next_hop_face_id = some 300 }

do_receive_packet-IsUntagged_example :
    IsUntagged codec (do_receive_packet codec parse service 3 1 (some tagged)).1
do_receive_packet-IsUntagged_example =
    do_receive_packet-IsUntagged codec parse service 3 1 (some tagged) refl
