-- ===== src/Face/Transport.antt =====
-- face/transport.hpp and face/transport.cpp: the lower part of a face. What a concrete transport does
-- with a packet (doSend) is the sequence of packets handed to it; what it does to close (doClose) and
-- to change its persistency shows in the later changes of its state. The persistencies are those of
-- ndn-cxx, and the assertions are preconditions. A thrown std::runtime_error is `none`.
pub mod Lifecycle
pub mod Closing
use ndn_share.Base.{
  ℕ, ◌+◌, Bool, true, false, ◌||◌, Option, none, some, List, [], ◌∷◌, ◌++◌, ◌==◌, if◌then◌else◌,
  length,
}

pub data TransportState : Type 0 where
  none_state up down closing failed closed : TransportState

unfoldable pub same_state : TransportState → TransportState → Bool
same_state none_state none_state = true
same_state up up = true
same_state down down = true
same_state closing closing = true
same_state failed failed = true
same_state closed closed = true
same_state _ _ = false

-- Of PacketCounter and ByteCounter, whose classes are not in this repository, what they count.
pub record TransportCounters : Type 0 where
  pub n_in_packets : ℕ
  pub n_out_packets : ℕ
  pub n_in_bytes : ℕ
  pub n_out_bytes : ℕ

-- The block is its bytes.
pub record TransportPacket : Type 0 where
  pub packet : List ℕ
  pub remote_endpoint : ℕ

-- `changes` are the emissions of afterStateChange, oldest first; `sent` the packets of doSend, and
-- `received` those given to the link service.
pub record Transport : Type 0 where
  pub state : TransportState
  pub persistency : ℕ
  pub counters : TransportCounters
  pub changes : List (TransportState × TransportState)
  pub sent : List TransportPacket
  pub received : List TransportPacket

unfoldable pub packet_of : (packet : List ℕ) → TransportPacket
packet_of packet = record { packet = packet; remote_endpoint = 0 }

-- The constructor.
unfoldable pub init : (persistency_none : ℕ) → Transport
init persistency_none = record {
  state = up;
  persistency = persistency_none;
  counters = record { n_in_packets = 0; n_out_packets = 0; n_in_bytes = 0; n_out_bytes = 0 };
  changes = [];
  sent = [];
  received = [];
}

-- The switch of setState.
unfoldable pub is_valid_change : TransportState → TransportState → Bool
unfolding same_state
is_valid_change up new = same_state new down || same_state new closing || same_state new failed
is_valid_change down new = same_state new up || same_state new closing || same_state new failed
is_valid_change closing new = same_state new closed
is_valid_change failed new = same_state new closed
is_valid_change _ new = false

unfoldable pub set_state : Transport → TransportState → Option Transport
unfolding same_state is_valid_change
set_state t new =
    if same_state t.state new
    then some t
    else if is_valid_change t.state new
    then some (record t { state = new; changes = t.changes ++ (t.state, new) ∷ [] })
    else none

unfoldable pub close : Transport → Option Transport
unfolding set_state
close t = elim t.state [ up ↦ set_state t closing | down ↦ set_state t closing | _ ↦ some t ]

unfoldable pub send : Transport → TransportPacket → Transport
send t p = elim t.state [
  | up ↦ record t {
    counters = record t.counters {
      n_out_packets = t.counters.n_out_packets + 1;
      n_out_bytes = t.counters.n_out_bytes + length p.packet;
    };
    sent = t.sent ++ p ∷ [];
  }
  | down ↦ record t { sent = t.sent ++ p ∷ [] }
  | _ ↦ t
]

unfoldable pub receive : Transport → TransportPacket → Transport
receive t p = record t {
  counters = record t.counters {
    n_in_packets = t.counters.n_in_packets + 1;
    n_in_bytes = t.counters.n_in_bytes + length p.packet;
  };
  received = t.received ++ p ∷ [];
}

unfoldable pub set_persistency : (persistency_none : ℕ) → Transport → ℕ → Option Transport
set_persistency persistency_none t new =
    if t.persistency == new
    then some t
    else if new == persistency_none
    then none
    else some (record t { persistency = new })
