-- ===== src/Link/Service/RoundTrip.antt =====
-- A packet through GenericLinkService::sendNetPacket on one side and LpReassembler on the other.
use ndn_share.Base.{
  ℕ, ◌+◌, ◌-◌, ◌%◌, ◌≤◌, ◌<◌, ◌≡◌, refl, sym, ap, ◌∙◌, inl, inr, Bool, true, Option, none, some,
  List, [], ◌∷◌, ◌++◌, length, replicate, arith,
}
use ndn_share.Base.Assoc.{lookup}
use ndn_share.Link.Packet.{Bytes, LpPacket, Wire, payload, joined, word}
use ndn_share.Link.Fragmenter.{Options, fragment_packet}
use ndn_share.Link.Fragmenter.Fragments.{
  AreNumbered, KeepsHeaders, Outcome, whole, mtu_too_small, over_limit, split,
  fragment_packet-Outcome,
}
use ndn_share.Link.Fragmenter.Sizes.{HasTlvSizes, fragment_packet-AllFit}
use ndn_share.Link.Reassembler.{Reassembler, nothing, complete, Key-discrete, slot_at}
use ndn_share.Link.Reassembler.Message.{IsMessage}
use ndn_share.Link.Reassembler.Delivery.{Order, deliver, InRange, Distinct, deliver_all}
use ndn_share.Link.Service.{Service, assign_sequences, send_net_packet}
use ndn_share.Link.Service.Sending.{
  send_net_packet_split, send_net_packet_refused, send_net_packet_whole, assign_sequences-IsMessage,
  joined-assign_sequences, length-assign_sequences, flag_cases,
}

-- What a fragmentation says of its fragments, unless the packet was sent whole.
Outcome-message :
    (w : Wire) (o : Options) (p : LpPacket) (mtu : ℕ) (fs : List LpPacket)
    (r : Bool × List LpPacket)
    → r ≡ (true, fs)
    → 2 ≤ length fs
    → Outcome w o p mtu r
    → (joined fs ≡ payload p) × AreNumbered (length fs) 0 fs × KeepsHeaders p fs
Outcome-message w o p mtu fs r e two (whole _) = absurd (ground arith)
Outcome-message w o p mtu fs r e two (mtu_too_small _) = absurd (ground arith)
Outcome-message w o p mtu fs r e two (over_limit _) = absurd (ground arith)
Outcome-message w o p mtu fs r e two (split gs carried numbered kept _) =
    let same : gs ≡ fs = ap (λ x. x.1) e in rw (← same) (carried, numbered, kept)

KeepsHeaders-assign_sequences :
    (last : ℕ) (p : LpPacket) (fs : List LpPacket)
    → KeepsHeaders p fs
    → KeepsHeaders p (slot_at (assign_sequences last fs).1 0 ∷ [])
unfolding assign_sequences
KeepsHeaders-assign_sequences last p [] k = absurd k
KeepsHeaders-assign_sequences last p (f ∷ fs) k = k

module _ {Block : Type 0} (parse : Bytes → Option Block) (w : Wire) (s : Service) (mtu : ℕ)
    (p : LpPacket) where
  -- The packets that the sender makes of a packet that does not fit are delivered, in any order and
  -- each once, to a receiver that holds no fragment under their identifier and whose limit lets so
  -- many in: nothing comes out
  -- before the last of them arrives, and then the packet's own bytes, with its own headers.
  pub round_trip :
      HasTlvSizes w p
      → 0 < length (payload p)
      → s.options.allow_fragmentation ≡ true
      → (sent : List LpPacket) (r : Reassembler) (endpoint : ℕ) (order : Order) (block : Block)
      → (send_net_packet w s (some mtu) p).1 ≡ sent
      → 2 ≤ length sent
      → length sent ≤ r.options.max_fragments
      → r.options.max_fragments ≤ word
      → lookup Key-discrete
          (endpoint, ((s.last_seq_no + 1) % word + word - 0) % word)
          r.partial_packets
        ≡ none
      → InRange (length sent) order
      → Distinct order
      → length order ≡ length sent
      → parse (payload p) ≡ some block
      → ((deliver parse r endpoint sent order).1
          ≡ replicate (length sent - 1) nothing ++ complete block (slot_at sent 0) ∷ [])
        × KeepsHeaders p (slot_at sent 0 ∷ [])
  round_trip h some_bytes allowed sent r endpoint order block made two max bound fresh range
        distinct all ok =
      elim (flag_cases (fragment_packet w s.options.fragmenter p mtu)) [
        | inr (fs, e) ↦ absurd (
            omega
              (arith, ap length made, send_net_packet_refused w s mtu p h some_bytes allowed fs e))
        | inl (fs, e) ↦
            elim (fragment_packet-AllFit w s.options.fragmenter p mtu h some_bytes fs e) [
              | inl (is_whole, fits) ↦ absurd (
                  omega (
                    arith,
                    ap length made,
                    send_net_packet_whole w s mtu p h some_bytes allowed
                        (ground (arith, e, is_whole)),
                  ))
              | inr (several, fit) ↦
                  let (carried, numbered, kept) =
                    Outcome-message w s.options.fragmenter p mtu fs _ e several
                      (fragment_packet-Outcome w s.options.fragmenter p mtu some_bytes) in
                  let same : (assign_sequences s.last_seq_no fs).1 ≡ sent =
                    sym (
                      ap (λ x. x.1)
                        (send_net_packet_split w s mtu p h some_bytes allowed fs e several fit))
                    ∙ made in
                  let len : length sent ≡ length fs =
                    ap length (sym same) ∙ length-assign_sequences s.last_seq_no fs in
                  let message : IsMessage (((s.last_seq_no + 1) % word + word - 0) % word)
                      (length sent) 0 sent =
                    rw (len, ← same)
                      (assign_sequences-IsMessage s.last_seq_no _ (length fs) 0 fs (omega arith)
                        numbered refl) in
                  let bytes : joined sent ≡ payload p =
                    ap joined (sym same) ∙ joined-assign_sequences s.last_seq_no fs ∙ carried in
                  (
                    (deliver_all parse endpoint _ (length sent) sent block message refl two
                        (ap parse bytes ∙ ok) r order fresh max range distinct all).0,
                    rw (← same) (KeepsHeaders-assign_sequences s.last_seq_no p fs kept),
                  )
            ]
      ]
