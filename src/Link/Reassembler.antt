-- ===== src/Link/Reassembler.antt =====
-- face/lp-reassembler.cpp: LpReassembler. The map of partial packets is an association list; a drop
-- timer is the time at which it fires, and its firing is a call of `timeout_partial_packet`.
-- `parse` is the constructor of ndn-cxx's Block, which throws on malformed bytes.
pub mod Slots
pub mod Message
pub mod Delivery
pub mod Invariant
use ndn_share.Base.{
  ℕ, ◌+◌, ◌-◌, ◌%◌, Bool, true, false, ◌&&◌, not, Option, none, some, List, [], ◌∷◌, ltb, leb, ◌==◌,
  if◌then◌else◌, get_elem?, set, replicate, ℕ_discrete,
}
use ndn_share.Base.Assoc.{lookup, insert, remove}
use ndn_share.Link.Packet.{Bytes, LpPacket, empty_packet, has, payload, joined, word}

pub record Options : Type 0 where
  pub max_fragments : ℕ
  pub reassembly_timeout : ℕ

-- Remote endpoint, and the sequence number of the first fragment.
abbrev pub Key : Type 0
Key = ℕ × ℕ

unfoldable pub Key-discrete : Discrete Key
Key-discrete = hlevel ℕ_discrete

pub record PartialPacket : Type 0 where
  pub fragments : List LpPacket
  pub frag_count : ℕ
  pub n_received : ℕ
  pub drop_timer : Option ℕ

pub record Reassembler : Type 0 where
  pub options : Options
  pub partial_packets : List (Key × PartialPacket)

-- `nothing` is FALSE_RETURN; `malformed` is the exception of the Block constructor.
pub data Received (Block : Type 0) : Type 0 where
  nothing : Received Block
  complete : Block → LpPacket → Received Block
  malformed : Received Block

abbrev pub get_or : Option ℕ → ℕ → ℕ
get_or none d = d
get_or (some n) d = n

-- `m_partialPackets[key]` makes such an entry where there is none.
abbrev pub new_partial : PartialPacket
new_partial = record { fragments = []; frag_count = 0; n_received = 0; drop_timer = none }

abbrev pub find_partial : Reassembler → Key → PartialPacket
find_partial r key = elim (lookup Key-discrete key r.partial_packets) [
  | none ↦ new_partial
  | some pp ↦ pp
]

abbrev pub open_partial : ℕ → PartialPacket → PartialPacket
open_partial count pp =
    if pp.frag_count == 0
    then record pp { fragments = replicate count empty_packet; frag_count = count; n_received = 0 }
    else pp

-- `fragments[index]`, which is in range in every reachable state.
abbrev pub slot_at : List LpPacket → ℕ → LpPacket
slot_at fragments index = elim (get_elem? fragments index) [ none ↦ empty_packet | some p ↦ p ]

abbrev pub store : Reassembler → Key → PartialPacket → Reassembler
store r key pp = record r { partial_packets = insert Key-discrete key pp r.partial_packets }

module _ {Block : Type 0} (parse : Bytes → Option Block) where
  -- doReassembly, and what follows it
  unfoldable pub finish : Reassembler → Key → PartialPacket → Reassembler × Received Block
  finish r key pp = elim (parse (joined pp.fragments)) [
    | none ↦ (store r key pp, malformed)
    | some block ↦ (
      record r { partial_packets = remove Key-discrete key r.partial_packets },
      complete block (slot_at pp.fragments 0),
    )
  ]

  -- From "add to PartialPacket" on.
  unfoldable pub add_fragment :
      Reassembler → (now : ℕ) → Key → (index count : ℕ) → LpPacket → Reassembler × Received Block
  unfolding finish
  add_fragment r now key index count p =
      let found = find_partial r key in
      let pp = open_partial count found in
      if not (found.frag_count == 0) && not (count == found.frag_count)
      then (r, nothing)
      else if has (slot_at pp.fragments index).sequence
      then (store r key pp, nothing)
      else (let filled = record pp {
        fragments = set pp.fragments index p;
        n_received = pp.n_received + 1;
      } in
          if filled.n_received == filled.frag_count then finish r key filled else (
            store r key (record filled { drop_timer = some (now + r.options.reassembly_timeout) }),
            nothing,
          ))

  unfoldable pub receive_fragment :
      Reassembler → (now remote_endpoint : ℕ) → LpPacket → Reassembler × Received Block
  unfolding add_fragment
  receive_fragment r now remote_endpoint p =
      let index = get_or p.frag_index 0 in
      let count = get_or p.frag_count 1 in
      if leb count index
      then (r, nothing)
      else if ltb r.options.max_fragments count
      then (r, nothing)
      else if index == 0 && count == 1
      then (r, elim (parse (payload p)) [ none ↦ malformed | some block ↦ complete block p ])
      else elim p.sequence [
        | none ↦ (r, nothing)
        | some sequence ↦
            add_fragment r now (remote_endpoint, (sequence + word - index) % word) index count p
      ]

-- The drop timer; the result is what `beforeTimeout` is emitted with.
unfoldable pub timeout_partial_packet : Reassembler → Key → Reassembler × Option (ℕ × ℕ)
timeout_partial_packet r key = elim (lookup Key-discrete key r.partial_packets) [
  | none ↦ (r, none)
  | some pp ↦ (
    record r { partial_packets = remove Key-discrete key r.partial_packets },
    some (key.0, pp.n_received),
  )
]
