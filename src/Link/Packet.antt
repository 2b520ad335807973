-- ===== src/Link/Packet.antt =====
-- The link-layer packet (lp::Packet of ndn-cxx) as the optional fields that face/ reads and writes,
-- and its wire encoding, which is ndn-cxx's and stays a parameter.
use ndn_share.Base.{ℕ, ◌^◌, Bool, Option, none, some, List, [], ◌∷◌, ◌++◌}

abbrev pub Bytes : Type 0
Bytes = List ℕ

pub record LpPacket : Type 0 where
  pub sequence : Option ℕ
  pub frag_index : Option ℕ
  pub frag_count : Option ℕ
  pub fragment : Option Bytes
  pub nack : Option ℕ
  pub next_hop_face_id : Option ℕ
  pub cache_policy : Option ℕ
  pub incoming_face_id : Option ℕ

-- lp::Packet()
abbrev pub empty_packet : LpPacket
empty_packet = record {
  sequence = none;
  frag_index = none;
  frag_count = none;
  fragment = none;
  nack = none;
  next_hop_face_id = none;
  cache_policy = none;
  incoming_face_id = none;
}

-- has<F>()
abbrev pub has {ℓ} : {A : Type ℓ} → Option A → Bool
has none = Bool.false
has (some a) = Bool.true

-- get<FragmentField>(); every caller has checked that the field is there.
abbrev pub bytes_of : Option Bytes → Bytes
bytes_of none = []
bytes_of (some b) = b

abbrev pub payload : LpPacket → Bytes
payload p = bytes_of p.fragment

-- wireEncode(): the size and the TLV-TYPE of the block, and type and size of each of its elements.
pub record Wire : Type 0 where
  pub size : LpPacket → ℕ
  pub type : LpPacket → ℕ
  pub elements : LpPacket → List (ℕ × ℕ)
  pub lp_packet_type : ℕ
  pub fragment_type : ℕ

-- The bytes that the fragments carry, in order.
abbrev pub joined : List LpPacket → Bytes
joined [] = []
joined (f ∷ fs) = payload f ++ joined fs

-- Sequence numbers are uint64_t.
unfoldable pub word : ℕ
word = 2 ^ 64
