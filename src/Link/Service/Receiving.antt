-- ===== src/Link/Service/Receiving.antt =====
-- GenericLinkService::doReceivePacket: what goes up to forwarding, and the error counters.
use ndn_share.Base.{ℕ, ◌≡◌, Option, none, some, false, arith}
use ndn_share.Link.Packet.{Bytes, LpPacket}
use ndn_share.Link.Reassembler.{Received, nothing, complete, malformed, receive_fragment}
use ndn_share.Link.Service.{
  Service, NetCodec, Upward, receive_interest, receive_data, receive_nack, dropped, decode_interest,
  decode_data, decode_nack, decode_net_packet, decode_received, do_receive_packet,
}

module _ {Block Interest Data : Type 0} (c : NetCodec Block Interest Data) where
  -- Nothing that goes up carries a local field.
  abbrev pub IsUntagged : Upward Interest Data → Type 0
  IsUntagged (receive_interest i tag) = tag ≡ none
  IsUntagged (receive_data d tag) = tag ≡ none
  IsUntagged (receive_nack i header) = Unit
  IsUntagged dropped = Unit

  decode_interest-IsUntagged :
      (s : Service) (b : Block) (first : LpPacket)
      → s.options.allow_local_fields ≡ false
      → IsUntagged (decode_interest c s b first).1
  unfolding decode_interest
  decode_interest-IsUntagged s b first off = ground arith

  decode_data-IsUntagged :
      (s : Service) (b : Block) (first : LpPacket)
      → s.options.allow_local_fields ≡ false
      → IsUntagged (decode_data c s b first).1
  unfolding decode_data
  decode_data-IsUntagged s b first off = ground arith

  decode_nack-IsUntagged :
      (s : Service) (b : Block) (header : ℕ) (first : LpPacket)
      → IsUntagged (decode_nack c s b header first).1
  unfolding decode_nack
  decode_nack-IsUntagged s b header first = ground arith

  decode_net_packet-IsUntagged :
      (s : Service) (b : Block) (first : LpPacket)
      → s.options.allow_local_fields ≡ false
      → IsUntagged (decode_net_packet c s b first).1
  unfolding decode_net_packet
  decode_net_packet-IsUntagged s b first off = ground (
    arith,
    decode_interest-IsUntagged s b first off,
    decode_data-IsUntagged s b first off,
    decode_nack-IsUntagged s b,
  )

  decode_received-IsUntagged :
      (s : Service) (x : Received Block)
      → s.options.allow_local_fields ≡ false
      → IsUntagged (decode_received c s x).1
  unfolding decode_received
  decode_received-IsUntagged s nothing off = tt
  decode_received-IsUntagged s malformed off = tt
  decode_received-IsUntagged s (complete b first) off = decode_net_packet-IsUntagged s b first off

  -- With local fields disabled, no Interest that goes up has a NextHopFaceId and no Data a
  -- CachePolicy, whatever the received packet holds.
  pub do_receive_packet-IsUntagged :
      (parse : Bytes → Option Block) (s : Service) (now endpoint : ℕ) (p : Option LpPacket)
      → s.options.allow_local_fields ≡ false
      → IsUntagged (do_receive_packet c parse s now endpoint p).1
  unfolding do_receive_packet
  do_receive_packet-IsUntagged parse s now endpoint none off = tt
  do_receive_packet-IsUntagged parse s now endpoint (some p) off =
      let (r, received) = receive_fragment parse s.reassembler now endpoint p in
      ground (arith, decode_received-IsUntagged (record s { reassembler = r }) received off)
