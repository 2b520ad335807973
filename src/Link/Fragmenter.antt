-- ===== src/Link/Fragmenter.antt =====
-- face/lp-fragmenter.cpp: LpFragmenter::fragmentPacket.
pub mod Fragments
pub mod Sizes
use ndn_share.Base.{
  ℕ, suc, ◌+◌, ◌-◌, ◌/◌, ◌%◌, ◌≤◌, min, ◌≡◌, Bool, true, false, Option, none, some, List, [], ◌∷◌,
  ltb, leb, ◌==◌, if◌then◌else◌, length, take, drop, replicate,
}
use ndn_share.Link.Packet.{Bytes, LpPacket, Wire, empty_packet, payload}

-- LpPacket and Fragment TLV-TYPE and TLV-LENGTH, and the Sequence TLV
abbrev pub max_single_frag_overhead : ℕ
max_single_frag_overhead = 1 + 9 + (1 + 1 + 8) + (1 + 9)

-- the same, with the FragIndex and the FragCount TLV
abbrev pub max_frag_overhead : ℕ
max_frag_overhead = 1 + 9 + (1 + 1 + 8) + (1 + 1 + 8) + (1 + 1 + 8) + (1 + 9)

pub record Options : Type 0 where
  pub max_fragments : ℕ

abbrev pub default_options : Options
default_options = record { max_fragments = 400 }

-- Sizes of the headers other than the fragment.
unfoldable pub sum_headers : ℕ → List (ℕ × ℕ) → ℕ
sum_headers fragment_type [] = 0
sum_headers fragment_type ((type, size) ∷ rest) =
    if type == fragment_type
    then sum_headers fragment_type rest
    else size + sum_headers fragment_type rest

unfoldable pub first_header_size : Wire → LpPacket → ℕ
first_header_size w p =
    if w.type p == w.lp_packet_type then sum_headers w.fragment_type (w.elements p) else 0

abbrev pub fill_slot : LpPacket → ℕ → ℕ → Bytes → LpPacket
fill_slot slot index count bytes = record slot {
  frag_index = some index;
  frag_count = some count;
  fragment = some bytes;
}

-- The loop that populates `frags`. The slots are those of `frags` from `fragIndex` on, `cur` is the
-- distance from `fragBegin` to `fragEnd`, and the bytes those from `fragBegin` to `netPktEnd`.
unfoldable pub populate : (count size index cur : ℕ) → Bytes → List LpPacket → List LpPacket
populate count size index cur bytes [] = []
populate count size index cur [] (slot ∷ slots) = slot ∷ slots
populate count size index cur (b ∷ bytes) (slot ∷ slots) =
    let rest = drop cur (b ∷ bytes) in
    fill_slot slot index count (take cur (b ∷ bytes))
    ∷ populate count size (index + 1) (min (length rest) size) rest slots

unfoldable pub frag_count : (net_size first size : ℕ) → ℕ
frag_count net_size first size =
    1 + (net_size - first) / size + (if (net_size - first) % size == 0 then 0 else 1)

-- What follows the fast path.
unfoldable pub split_packet : Wire → Options → LpPacket → ℕ → Bool × List LpPacket
split_packet w o p mtu =
    let header = first_header_size w p in
    let net_size = length (payload p) in
    if ltb mtu (max_frag_overhead + header + 1)
    then (false, [])
    else (let first = min net_size (mtu - header - max_frag_overhead) in
        let size = mtu - max_frag_overhead in
        let count = frag_count net_size first size in
        if ltb o.max_fragments count then (false, []) else (
          true,
          populate count size 0 first (payload p) (p ∷ replicate (count - 1) empty_packet),
        ))

unfoldable pub fragment_packet : Wire → Options → LpPacket → ℕ → Bool × List LpPacket
unfolding split_packet
fragment_packet w o p mtu =
    if leb (max_single_frag_overhead + w.size p) mtu then (true, p ∷ []) else split_packet w o p mtu
