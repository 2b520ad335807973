-- ===== src/Link/Service/Sending.antt =====
-- GenericLinkService::sendNetPacket: sequence numbers, and the size of what is sent.
use ndn_share.Base.{
  ℕ, suc, ◌+◌, ◌-◌, ◌%◌, ◌≤◌, ◌<◌, ◌≡◌, refl, ap, ◌⊎◌, inl, inr, Bool, true, false, some, List, [],
  ◌∷◌, length, arith,
}
use ndn_share.Link.Packet.{LpPacket, Wire, payload, joined, word}
use ndn_share.Link.Fragmenter.{fragment_packet}
use ndn_share.Link.Fragmenter.Fragments.{AreNumbered}
use ndn_share.Link.Fragmenter.Sizes.{HasTlvSizes, AllFit, fragment_packet-AllFit}
use ndn_share.Link.Reassembler.Message.{IsMessage}
use ndn_share.Link.Service.{Service, assign_sequences, send_loop, send_net_packet}

pub length-assign_sequences :
    (last : ℕ) (ps : List LpPacket) → length (assign_sequences last ps).1 ≡ length ps
unfolding assign_sequences
length-assign_sequences last [] = refl
length-assign_sequences last (p ∷ ps) = ap suc (length-assign_sequences ((last + 1) % word) ps)

pub joined-assign_sequences :
    (last : ℕ) (ps : List LpPacket) → joined (assign_sequences last ps).1 ≡ joined ps
unfolding assign_sequences
joined-assign_sequences last [] = refl
joined-assign_sequences last (p ∷ ps) = rw (joined-assign_sequences ((last + 1) % word) ps)

next_identified :
    (next index identifier : ℕ)
    → suc index ≤ word
    → next < word
    → (next + word - index) % word ≡ identifier
    → ((next + 1) % word + word - suc index) % word ≡ identifier
unfolding word
next_identified next index identifier small lt e = omega arith

mod-lt-word : (n : ℕ) → n % word < word
unfolding word
mod-lt-word n = omega arith

-- Sequence numbers that wrap around still tell the first fragment's from the index.
pub assign_sequences-IsMessage :
    (last identifier count index : ℕ) (ps : List LpPacket)
    → index + length ps ≤ word
    → AreNumbered count index ps
    → ((last + 1) % word + word - index) % word ≡ identifier
    → IsMessage identifier count index (assign_sequences last ps).1
unfolding assign_sequences
assign_sequences-IsMessage last identifier count index [] small n i = tt
assign_sequences-IsMessage last identifier count index (p ∷ ps) small n i =
    let e : index + 1 ≡ suc index = omega arith in
    (
      record {
        sequence_number = (last + 1) % word;
        numbered = n.0;
        counted = n.1;
        sequenced = refl;
        identified = i;
      },
      assign_sequences-IsMessage ((last + 1) % word) identifier count (suc index) ps (omega arith)
          (rw e at n.2)
          (next_identified ((last + 1) % word) index identifier (omega arith)
            (mod-lt-word (last + 1)) i),
    )

send_loop-AllFit :
    (w : Wire) (mtu n last : ℕ) (fs : List LpPacket)
    → AllFit w mtu fs
    → send_loop w (some mtu) n (assign_sequences last fs).1 ≡ (n, (assign_sequences last fs).1)
unfolding send_loop assign_sequences
send_loop-AllFit w mtu n last [] fit = refl
send_loop-AllFit w mtu n last (f ∷ fs) fit =
    ground (arith, fit.0 ((last + 1) % word), send_loop-AllFit w mtu n ((last + 1) % word) fs fit.1)

pub flag_cases {ℓ} :
    {A : Type ℓ} (r : Bool × A) → ((a : A) × (r ≡ (true, a))) ⊎ ((a : A) × (r ≡ (false, a)))
flag_cases (true, a) = inl (a, refl)
flag_cases (false, a) = inr (a, refl)

module _ (w : Wire) (s : Service) (mtu : ℕ) (p : LpPacket) (h : HasTlvSizes w p)
    (some_bytes : 0 < length (payload p)) (allowed : s.options.allow_fragmentation ≡ true) where
  -- Where the fragmenter cuts the packet, all the numbered fragments are sent.
  pub send_net_packet_split :
      (fs : List LpPacket)
      → fragment_packet w s.options.fragmenter p mtu ≡ (true, fs)
      → 2 ≤ length fs
      → AllFit w mtu fs
      → send_net_packet w s (some mtu) p ≡ (
        record s { last_seq_no = (assign_sequences s.last_seq_no fs).0 },
        (assign_sequences s.last_seq_no fs).1,
      )
  unfolding send_net_packet
  send_net_packet_split fs e two fit =
      ground (arith, allowed, e, send_loop-AllFit w mtu s.n_out_over_mtu s.last_seq_no fs fit)

  -- With fragmentation enabled, on a wire with TLV sizes, no packet with a payload is dropped for
  -- being over the limit.
  pub send_net_packet-n_out_over_mtu :
      (send_net_packet w s (some mtu) p).0.n_out_over_mtu ≡ s.n_out_over_mtu
  unfolding send_net_packet
  send_net_packet-n_out_over_mtu =
      elim (flag_cases (fragment_packet w s.options.fragmenter p mtu)) [
        | inr (fs, e) ↦ ground (arith, allowed, e)
        | inl (fs, e) ↦
            elim (fragment_packet-AllFit w s.options.fragmenter p mtu h some_bytes fs e) [
              | inl (whole, fits) ↦ ground (arith, allowed, e, whole, fits)
              | inr (two, fit) ↦ ground (
                arith,
                allowed,
                e,
                two,
                send_loop-AllFit w mtu s.n_out_over_mtu s.last_seq_no fs fit,
              )
            ]
      ]

  pub send_net_packet_refused :
      (fs : List LpPacket)
      → fragment_packet w s.options.fragmenter p mtu ≡ (false, fs)
      → length (send_net_packet w s (some mtu) p).1 ≤ 1
  unfolding send_net_packet
  send_net_packet_refused fs e = ground (arith, allowed, e)

  pub send_net_packet_whole :
      fragment_packet w s.options.fragmenter p mtu ≡ (true, p ∷ [])
      → length (send_net_packet w s (some mtu) p).1 ≤ 1
  unfolding send_net_packet
  send_net_packet_whole e = ground (arith, allowed, e)
