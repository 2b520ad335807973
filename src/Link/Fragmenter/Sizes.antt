-- ===== src/Link/Fragmenter/Sizes.antt =====
-- The sizes on the wire of the fragments of LpFragmenter::fragmentPacket.
use ndn_share.Base.{
  ℕ, zero, suc, ◌+◌, ◌-◌, ◌≤◌, ◌<◌, ◌≡◌, ap, ◌⊎◌, inl, inr, true, Bool-cases, some, List, [], ◌∷◌,
  length, length-take, replicate, take, drop, leb, arith,
}
use ndn_share.Link.Fragmenter.Fragments.{
  frags_of, split_packet_cases, length-frags_of, Ready, Ready-step, split-Ready, count_of,
}
use ndn_share.Link.Packet.{Bytes, LpPacket, Wire, empty_packet, payload}
use ndn_share.Link.Fragmenter.{
  Options, max_frag_overhead, max_single_frag_overhead, populate, frag_count, first_header_size,
  fragment_packet,
}

abbrev pub as_fragment : LpPacket → (sequence index count : ℕ) → Bytes → LpPacket
as_fragment p sequence index count bytes = record p {
  sequence = some sequence;
  frag_index = some index;
  frag_count = some count;
  fragment = some bytes;
}

-- The bounds of TLV encoding on which the overheads of lp-fragmenter.cpp rest.
pub record HasTlvSizes (w : Wire) (p : LpPacket) : Type 0 where
  pub whole : w.size p ≤ 20 + first_header_size w p + length (payload p)
  pub first :
      (sequence index count : ℕ) (bytes : Bytes)
      → w.size (as_fragment p sequence index count bytes)
        ≤ max_frag_overhead + first_header_size w p + length bytes
  pub other :
      (sequence index count : ℕ) (bytes : Bytes)
      → w.size (as_fragment empty_packet sequence index count bytes)
        ≤ max_frag_overhead + length bytes

-- With any sequence number a fragment is within the limit.
abbrev pub AllFit : Wire → ℕ → List LpPacket → Type 0
AllFit w mtu [] = Unit
AllFit w mtu (f ∷ fs) =
    ((sequence : ℕ) → w.size (record f { sequence = some sequence }) ≤ mtu) × AllFit w mtu fs

module _ (w : Wire) (p : LpPacket) (mtu : ℕ) (h : HasTlvSizes w p)
    (room : max_frag_overhead < mtu) where
  -- Every later slot is an empty packet.
  populate-AllFit :
      (n count index cur : ℕ) (bytes : Bytes)
      → cur ≤ mtu - max_frag_overhead
      → Ready (mtu - max_frag_overhead) cur bytes (replicate n empty_packet)
      → AllFit w mtu
          (populate count (mtu - max_frag_overhead) index cur bytes (replicate n empty_packet))
  unfolding populate
  populate-AllFit zero count index cur [] small r = tt
  populate-AllFit zero count index cur (b ∷ bytes) small r = tt
  populate-AllFit (suc n) count index cur [] small r = absurd (ground (arith, r.3))
  populate-AllFit (suc n) count index cur (b ∷ bytes) small r = (
    (λ sequence.
        omega (
          arith,
          h.other sequence index count (take cur (b ∷ bytes)),
          length-take cur (b ∷ bytes),
        )),
    populate-AllFit n count (index + 1) _ (drop cur (b ∷ bytes)) (omega arith) (
        Ready-step (mtu - max_frag_overhead) cur b bytes empty_packet (replicate n empty_packet) r),
  )

  -- The first slot also carries the other headers.
  populate_first-AllFit :
      (n count cur : ℕ)
      → cur ≤ mtu - first_header_size w p - max_frag_overhead
      → first_header_size w p + max_frag_overhead < mtu
      → 0 < length (payload p)
      → Ready (mtu - max_frag_overhead) cur (payload p) (p ∷ replicate n empty_packet)
      → AllFit w mtu (
          populate count (mtu - max_frag_overhead) 0 cur (payload p) (p ∷ replicate n empty_packet))
  populate_first-AllFit n count cur small header some_bytes r = go (payload p) some_bytes r
    where
      go :
          (bytes : Bytes)
          → 0 < length bytes
          → Ready (mtu - max_frag_overhead) cur bytes (p ∷ replicate n empty_packet)
          → AllFit w mtu
              (populate count (mtu - max_frag_overhead) 0 cur bytes (p ∷ replicate n empty_packet))
      go [] pos r = absurd (omega arith)
      go (b ∷ bytes) pos r =
          unfold populate in
          (
            (λ sequence. omega (
              arith,
              h.first sequence 0 count (take cur (b ∷ bytes)),
              length-take cur (b ∷ bytes),
            )),
            populate-AllFit n count (0 + 1) _ (drop cur (b ∷ bytes)) (omega arith)
                (Ready-step (mtu - max_frag_overhead) cur b bytes p (replicate n empty_packet) r),
          )

module _ (w : Wire) (o : Options) (p : LpPacket) (mtu : ℕ) (h : HasTlvSizes w p)
    (some_bytes : 0 < length (payload p)) where
  frags_of-AllFit :
      max_frag_overhead + first_header_size w p < mtu → AllFit w mtu (frags_of w o p mtu)
  frags_of-AllFit room =
      populate_first-AllFit w p mtu h (omega arith) _ _ _ (omega arith) (omega arith) some_bytes
        (split-Ready p mtu (first_header_size w p) some_bytes (ground arith))

  -- A packet without room for a sequence number is not cut into one fragment.
  count_of-two :
      mtu < max_single_frag_overhead + w.size p
      → max_frag_overhead + first_header_size w p < mtu
      → 2 ≤ count_of p mtu (first_header_size w p)
  unfolding frag_count
  count_of-two large room = ground (arith, h.whole)

  -- What `fragmentPacket` returns of a packet with a payload, on a wire with TLV sizes, is the packet, within the limit, or at least two fragments
  -- that are within the limit with any sequence number.
  pub fragment_packet-AllFit :
      (fs : List LpPacket)
      → fragment_packet w o p mtu ≡ (true, fs)
      → ((fs ≡ p ∷ []) × (w.size p ≤ mtu)) ⊎ ((2 ≤ length fs) × AllFit w mtu fs)
  unfolding fragment_packet
  fragment_packet-AllFit fs e = elim (Bool-cases (leb (max_single_frag_overhead + w.size p) mtu)) [
    | inl fits ↦ inl (ground arith, ground arith)
    | inr large ↦
        split_packet_cases w o p mtu
          (λ r.
            r ≡ (true, fs)
            → ((fs ≡ p ∷ []) × (w.size p ≤ mtu)) ⊎ ((2 ≤ length fs) × AllFit w mtu fs))
          (λ _ no_frags. absurd (ground arith)) (λ _ no_frags. absurd (ground arith))
          (λ room within made.
            let made' : frags_of w o p mtu ≡ fs = ap (λ r. r.1) made in
            inr (
              rw (← made')
                  (omega (arith, length-frags_of w o p mtu, count_of-two (ground arith) room)),
              rw (← made') (frags_of-AllFit room),
            ))
          (rw large at e)
  ]
