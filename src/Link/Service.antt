-- ===== src/Link/Service.antt =====
-- face/generic-link-service.cpp: GenericLinkService. What it hands to the transport, and what it
-- hands up to forwarding, are the results of its operations. Constructors of ndn-cxx that throw
-- tlv::Error are parameters into Option.
pub mod Sending
pub mod RoundTrip
pub mod Receiving
use ndn_share.Base.{
  ℕ, zero, suc, ◌+◌, ◌-◌, ◌%◌, Bool, true, false, ◌&&◌, ◌||◌, not, Option, none, some, List, [],
  ◌∷◌, ltb, if◌then◌else◌, length,
}
use ndn_share.Link.Packet.{Bytes, LpPacket, Wire, has, word}
use ndn_share.Link.Fragmenter.{fragment_packet}
use ndn_share.Link.Fragmenter
use ndn_share.Link.Reassembler.{
  Reassembler, Received, nothing, complete, malformed, receive_fragment, timeout_partial_packet,
  Key,
}

pub record Options : Type 0 where
  pub allow_local_fields : Bool
  pub allow_fragmentation : Bool
  pub allow_reassembly : Bool
  pub fragmenter : Fragmenter.Options

pub record Service : Type 0 where
  pub options : Options
  pub reassembler : Reassembler
  pub last_seq_no : ℕ
  pub n_fragmentation_errors : ℕ
  pub n_out_over_mtu : ℕ
  pub n_reassembly_timeouts : ℕ
  pub n_in_lp_invalid : ℕ
  pub n_in_net_invalid : ℕ

-- The constructor: the last sequence number is -2.
abbrev pub init : Options → Reassembler → Service
init o r = record {
  options = o;
  reassembler = r;
  last_seq_no = word - 2;
  n_fragmentation_errors = 0;
  n_out_over_mtu = 0;
  n_reassembly_timeouts = 0;
  n_in_lp_invalid = 0;
  n_in_net_invalid = 0;
}

-- doSendInterest, doSendData and doSendNack, down to sendNetPacket: the header fields. The packet
-- is made of the wire encoding; the tag is that of the network packet.
unfoldable pub encode_local_fields : Option ℕ → LpPacket → LpPacket
encode_local_fields none p = p
encode_local_fields (some id) p = record p { incoming_face_id = some id }

unfoldable pub add_local_fields : Service → Option ℕ → LpPacket → LpPacket
unfolding encode_local_fields
add_local_fields s tag p = if s.options.allow_local_fields then encode_local_fields tag p else p

-- assignSequence, for each packet in turn.
unfoldable pub assign_sequences : ℕ → List LpPacket → ℕ × List LpPacket
assign_sequences last [] = (last, [])
assign_sequences last (p ∷ ps) =
    let next = (last + 1) % word in
    let (last', ps') = assign_sequences next ps in (last', record p { sequence = some next } ∷ ps')

-- `none` is MTU_UNLIMITED.
abbrev pub Mtu : Type 0
Mtu = Option ℕ

-- The packets to send, or `none` where the fragmenter refuses.
unfoldable pub cut : Wire → Service → Mtu → LpPacket → Option (List LpPacket)
cut w s none p = some (p ∷ [])
cut w s (some mtu) p =
    if s.options.allow_fragmentation
    then (let (is_ok, frags) = fragment_packet w s.options.fragmenter p mtu in
        if is_ok then some frags else none)
    else some (p ∷ [])

abbrev pub over_mtu : Wire → Mtu → LpPacket → Bool
over_mtu w none p = false
over_mtu w (some mtu) p = ltb mtu (w.size p)

-- The loop that sends the packets: how many were over the limit, and those sent.
unfoldable pub send_loop : Wire → Mtu → ℕ → List LpPacket → ℕ × List LpPacket
send_loop w mtu n [] = (n, [])
send_loop w mtu n (f ∷ fs) =
    let over = over_mtu w mtu f in
    let (n', sent) = send_loop w mtu (if over then n + 1 else n) fs in
    (n', if over then sent else f ∷ sent)

abbrev pub number : Service → List LpPacket → ℕ × List LpPacket
number s frags =
    if ltb 1 (length frags) then assign_sequences s.last_seq_no frags else (s.last_seq_no, frags)

unfoldable pub send_net_packet : Wire → Service → Mtu → LpPacket → Service × List LpPacket
unfolding cut send_loop
send_net_packet w s mtu p = elim (cut w s mtu p) [
  | none ↦ (record s { n_fragmentation_errors = s.n_fragmentation_errors + 1 }, [])
  | some frags ↦
      let (last, numbered) = number s frags in
      let (over, sent) = send_loop w mtu s.n_out_over_mtu numbered in
      (record s { last_seq_no = last; n_out_over_mtu = over }, sent)
]

-- doSendInterest, doSendData: the packet is `lp::Packet(wireEncode())`.
unfoldable pub do_send : Wire → Service → Mtu → Option ℕ → LpPacket → Service × List LpPacket
unfolding add_local_fields
do_send w s mtu tag p = send_net_packet w s mtu (add_local_fields s tag p)

-- doSendNack: the same, with the Nack header.
unfoldable pub do_send_nack :
    Wire → Service → Mtu → Option ℕ → ℕ → LpPacket → Service × List LpPacket
unfolding add_local_fields
do_send_nack w s mtu tag header p =
    send_net_packet w s mtu (add_local_fields s tag (record p { nack = some header }))

-- TLV-TYPE of a network packet.
pub data NetType : Type 0 where
  interest_type data_type other_type : NetType

pub record NetCodec (Block Interest Data : Type 0) : Type 0 where
  pub type : Block → NetType
  pub make_interest : Block → Option Interest
  pub make_data : Block → Option Data
  pub is_nack_header : ℕ → Bool
  pub is_cache_policy : ℕ → Bool

-- receiveInterest, receiveData, receiveNack, with the tags that were set.
pub data Upward (Interest Data : Type 0) : Type 0 where
  receive_interest : Interest → (next_hop_face_id : Option ℕ) → Upward Interest Data
  receive_data : Data → (cache_policy : Option ℕ) → Upward Interest Data
  receive_nack : Interest → (header : ℕ) → Upward Interest Data
  dropped : Upward Interest Data

abbrev pub count_net_invalid : Service → Service
count_net_invalid s = record s { n_in_net_invalid = s.n_in_net_invalid + 1 }

module _ {Block Interest Data : Type 0} (c : NetCodec Block Interest Data) where
  unfoldable pub decode_interest : Service → Block → LpPacket → Service × Upward Interest Data
  decode_interest s b first = elim (c.make_interest b) [
    | none ↦ (count_net_invalid s, dropped)
    | some interest ↦
        if has first.next_hop_face_id && not s.options.allow_local_fields
        then (s, dropped)
        else if has first.cache_policy
        then (count_net_invalid s, dropped)
        else (s, receive_interest interest first.next_hop_face_id)
  ]

  -- get<CachePolicyField>() throws on an invalid policy.
  unfoldable pub decode_data : Service → Block → LpPacket → Service × Upward Interest Data
  decode_data s b first = elim (c.make_data b) [
    | none ↦ (count_net_invalid s, dropped)
    | some d ↦
        if has first.nack
        then (count_net_invalid s, dropped)
        else if has first.next_hop_face_id
        then (count_net_invalid s, dropped)
        else elim first.cache_policy [
          | none ↦ (s, receive_data d none)
          | some policy ↦
              if s.options.allow_local_fields
              then (if c.is_cache_policy policy
                  then (s, receive_data d (some policy))
                  else (count_net_invalid s, dropped))
              else (s, receive_data d none)
        ]
  ]

  -- get<NackField>() throws on an invalid header.
  unfoldable pub decode_nack :
      Service → Block → (header : ℕ) → LpPacket → Service × Upward Interest Data
  decode_nack s b header first = elim (c.make_interest b) [
    | none ↦ (count_net_invalid s, dropped)
    | some interest ↦
        if not (c.is_nack_header header)
        then (count_net_invalid s, dropped)
        else if has first.next_hop_face_id
        then (count_net_invalid s, dropped)
        else if has first.cache_policy
        then (count_net_invalid s, dropped)
        else (s, receive_nack interest header)
  ]

  unfoldable pub decode_net_packet : Service → Block → LpPacket → Service × Upward Interest Data
  unfolding decode_interest decode_data decode_nack
  decode_net_packet s b first = elim (c.type b) [
    | interest_type ↦ elim first.nack [
      | none ↦ decode_interest s b first
      | some header ↦ decode_nack s b header first
    ]
    | data_type ↦ decode_data s b first
    | other_type ↦ (count_net_invalid s, dropped)
  ]

  -- What the reassembler returned.
  unfoldable pub decode_received : Service → Received Block → Service × Upward Interest Data
  unfolding decode_net_packet
  decode_received s nothing = (s, dropped)
  decode_received s malformed = (record s { n_in_lp_invalid = s.n_in_lp_invalid + 1 }, dropped)
  decode_received s (complete block first) = decode_net_packet s block first

  -- The packet is `none` where lp::Packet cannot be made of the received bytes.
  unfoldable pub do_receive_packet :
      (Bytes → Option Block)
      → Service
      → (now remote_endpoint : ℕ) → Option LpPacket
      → Service × Upward Interest Data
  unfolding decode_received
  do_receive_packet parse s now remote_endpoint none =
      (record s { n_in_lp_invalid = s.n_in_lp_invalid + 1 }, dropped)
  do_receive_packet parse s now remote_endpoint (some p) =
      if not (has p.fragment)
      then (s, dropped)
      else if (has p.frag_index || has p.frag_count) && not s.options.allow_reassembly
      then (s, dropped)
      else (let (r, received) = receive_fragment parse s.reassembler now remote_endpoint p in
          decode_received (record s { reassembler = r }) received)

-- A drop timer of the reassembler fires; the constructor connected the counter to its signal.
unfoldable pub on_timeout : Service → Key → Service
on_timeout s key =
    let (r, signalled) = timeout_partial_packet s.reassembler key in
    elim signalled [
      | none ↦ record s { reassembler = r }
      | some _ ↦ record s { reassembler = r; n_reassembly_timeouts = s.n_reassembly_timeouts + 1 }
    ]
