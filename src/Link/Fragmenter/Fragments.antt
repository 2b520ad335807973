-- ===== src/Link/Fragmenter/Fragments.antt =====
-- What LpFragmenter::fragmentPacket produces: the fragments' indices, payloads and sizes.
use ndn_share.Base.{
  ℕ, suc, ◌+◌, ◌-◌, ◌/◌, ◌%◌, ◌≤◌, ◌<◌, min, ◌≡◌, refl, ap, ◌∙◌, Bool, true, false, some, List, [],
  ◌∷◌, ltb, leb, ◌==◌, if◌then◌else◌, inl, inr, Bool-cases, length, drop, replicate, arith,
  length-drop, take-append-drop, length-replicate,
}
use ndn_share.Link.Packet.{Bytes, LpPacket, Wire, empty_packet, payload, joined}
use ndn_share.Link.Fragmenter.{
  Options, max_frag_overhead, max_single_frag_overhead, populate, frag_count, split_packet,
  fragment_packet, first_header_size,
}

-- The fragments carry the indices from `index` on, and all the same count.
abbrev pub AreNumbered : (count index : ℕ) → List LpPacket → Type 0
AreNumbered count index [] = Unit
AreNumbered count index (f ∷ fs) =
    (f.frag_index ≡ some index) × (f.frag_count ≡ some count) × AreNumbered count (index + 1) fs

-- The first fragment has the packet's other headers.
abbrev pub KeepsHeaders : LpPacket → List LpPacket → Type 0
KeepsHeaders p [] = ⊥
KeepsHeaders p (f ∷ fs) =
    (f.nack ≡ p.nack)
    × (f.next_hop_face_id ≡ p.next_hop_face_id)
    × (f.cache_policy ≡ p.cache_policy)
    × (f.incoming_face_id ≡ p.incoming_face_id)

abbrev pub ceil_div : ℕ → ℕ → ℕ
ceil_div m s = m / s + (if m % s == 0 then 0 else 1)

ceil_div-step : (m s : ℕ) → 0 < s → 0 < m → ceil_div m s ≡ 1 + ceil_div (m - min m s) s
ceil_div-step m s hs hm = grind arith

-- The slots that the loop fills from a position with `n` bytes ahead.
abbrev pub slots_for : (n cur size : ℕ) → ℕ
slots_for n cur size = if n == 0 then 0 else 1 + ceil_div (n - cur) size

slots_for-step : (m s : ℕ) → 0 < s → ceil_div m s ≡ slots_for m (min m s) s
slots_for-step m s h = ground (arith, ceil_div-step m s h)

-- The loop's precondition, which each round keeps.
abbrev pub Ready : (size cur : ℕ) → Bytes → List LpPacket → Type 0
Ready size cur bytes slots =
    (0 < size)
    × (cur ≤ length bytes)
    × (0 < length bytes → 0 < cur)
    × (length slots ≡ slots_for (length bytes) cur size)

pub Ready-step :
    (size cur b : ℕ) (bytes : Bytes) (slot : LpPacket) (slots : List LpPacket)
    → Ready size cur (b ∷ bytes) (slot ∷ slots)
    → let rest = drop cur (b ∷ bytes) in Ready size (min (length rest) size) rest slots
Ready-step size cur b bytes slot slots (pos, fits, progress, room) =
    let len = length-drop cur (b ∷ bytes) in
    let step = slots_for-step (length (drop cur (b ∷ bytes))) size pos in
    (pos, omega arith, (λ h. omega arith), ground (arith, len, step))

pub populate-joined :
    (count size index cur : ℕ) (bytes : Bytes) (slots : List LpPacket)
    → Ready size cur bytes slots
    → joined (populate count size index cur bytes slots) ≡ bytes
unfolding populate
populate-joined count size index cur [] [] r = refl
populate-joined count size index cur (b ∷ bytes) [] r = absurd (ground (arith, r.3))
populate-joined count size index cur [] (slot ∷ slots) r = absurd (ground (arith, r.3))
populate-joined count size index cur (b ∷ bytes) (slot ∷ slots) r =
    rw
      (populate-joined count size (index + 1) _ (drop cur (b ∷ bytes)) slots
        (Ready-step size cur b bytes slot slots r))
      (take-append-drop cur (b ∷ bytes))

pub populate-AreNumbered :
    (count size index cur : ℕ) (bytes : Bytes) (slots : List LpPacket)
    → Ready size cur bytes slots
    → AreNumbered count index (populate count size index cur bytes slots)
unfolding populate
populate-AreNumbered count size index cur [] [] r = tt
populate-AreNumbered count size index cur (b ∷ bytes) [] r = tt
populate-AreNumbered count size index cur [] (slot ∷ slots) r = absurd (ground (arith, r.3))
populate-AreNumbered count size index cur (b ∷ bytes) (slot ∷ slots) r = (
  refl,
  refl,
  populate-AreNumbered count size (index + 1) _ (drop cur (b ∷ bytes)) slots
      (Ready-step size cur b bytes slot slots r),
)

populate-KeepsHeaders :
    (count size index cur : ℕ) (bytes : Bytes) (p : LpPacket) (slots : List LpPacket)
    → KeepsHeaders p (populate count size index cur bytes (p ∷ slots))
unfolding populate
populate-KeepsHeaders count size index cur [] p slots = (refl, refl, refl, refl)
populate-KeepsHeaders count size index cur (b ∷ bytes) p slots = (refl, refl, refl, refl)

pub length-populate :
    (count size index cur : ℕ) (bytes : Bytes) (slots : List LpPacket)
    → length (populate count size index cur bytes slots) ≡ length slots
unfolding populate
length-populate count size index cur bytes [] = refl
length-populate count size index cur [] (slot ∷ slots) = refl
length-populate count size index cur (b ∷ bytes) (slot ∷ slots) =
    ap suc (length-populate count size (index + 1) _ (drop cur (b ∷ bytes)) slots)

pub length-slots :
    (p : LpPacket) (count : ℕ) → 0 < count → length (p ∷ replicate (count - 1) empty_packet) ≡ count
length-slots p count h = omega (arith, length-replicate (count - 1) empty_packet)

pub frag_count-pos : (net_size first size : ℕ) → 0 < frag_count net_size first size
unfolding frag_count
frag_count-pos net_size first size = omega arith

frag_count-eq-slots_for :
    (net_size first size : ℕ)
    → 0 < net_size
    → frag_count net_size first size ≡ slots_for net_size first size
unfolding frag_count
frag_count-eq-slots_for net_size first size h = ground arith

-- What a split that does not fail hands to the loop.
abbrev pub first_size : (p : LpPacket) (mtu header : ℕ) → ℕ
first_size p mtu header = min (length (payload p)) (mtu - header - max_frag_overhead)

abbrev pub count_of : (p : LpPacket) (mtu header : ℕ) → ℕ
count_of p mtu header =
    frag_count (length (payload p)) (first_size p mtu header) (mtu - max_frag_overhead)

pub split-Ready :
    (p : LpPacket) (mtu header : ℕ)
    → 0 < length (payload p)
    → ltb mtu (max_frag_overhead + header + 1) ≡ false
    → Ready
        (mtu - max_frag_overhead)
        (first_size p mtu header)
        (payload p)
        (p ∷ replicate (count_of p mtu header - 1) empty_packet)
split-Ready p mtu header some_bytes room =
    let n = length (payload p) in
    let first = first_size p mtu header in
    let size = mtu - max_frag_overhead in
    (
      ground arith,
      omega arith,
      (λ h. ground arith),
      length-slots p (count_of p mtu header) (frag_count-pos n first size)
          ∙ frag_count-eq-slots_for n first size some_bytes,
    )

module _ (w : Wire) (o : Options) (p : LpPacket) (mtu : ℕ) where
  -- The branches after the fast path, and the fragments that the last of them makes.
  abbrev pub header_of : ℕ
  header_of = first_header_size w p

  abbrev pub frags_of : List LpPacket
  frags_of =
      populate (count_of p mtu header_of) (mtu - max_frag_overhead) 0 (first_size p mtu header_of)
        (payload p) (p ∷ replicate (count_of p mtu header_of - 1) empty_packet)

  pub split_packet_cases {ℓ} :
      (P : Bool × List LpPacket → Type ℓ)
      → (mtu < max_frag_overhead + header_of + 1 → P (false, []))
      → (o.max_fragments < count_of p mtu header_of → P (false, []))
      → (max_frag_overhead + header_of < mtu
          → count_of p mtu header_of ≤ o.max_fragments
          → P (true, frags_of))
      → P (split_packet w o p mtu)
  unfolding split_packet
  split_packet_cases P small over made =
      elim (Bool-cases (ltb mtu (max_frag_overhead + header_of + 1))) [
        | inl e ↦ rw e (small (ground arith))
        | inr e ↦ elim (Bool-cases (ltb o.max_fragments (count_of p mtu header_of))) [
          | inl f ↦ rw (e, f) (over (ground arith))
          | inr f ↦ rw (e, f) (made (ground arith) (ground arith))
        ]
      ]

  pub length-frags_of : length frags_of ≡ count_of p mtu header_of
  length-frags_of =
      length-populate (count_of p mtu header_of) (mtu - max_frag_overhead) 0 _ (payload p) _
      ∙ length-slots p (count_of p mtu header_of) (frag_count-pos _ _ _)

  -- What `fragmentPacket` may return: the packet as it is, a refusal with its reason, or fragments
  -- that are numbered from 0, know their count, and carry the payload in order.
  pub data Outcome : Bool × List LpPacket → Type 0 where
    whole : max_single_frag_overhead + w.size p ≤ mtu → Outcome (true, p ∷ [])
    mtu_too_small : mtu < max_frag_overhead + header_of + 1 → Outcome (false, [])
    over_limit : o.max_fragments < count_of p mtu header_of → Outcome (false, [])
    split :
        (fs : List LpPacket)
        → joined fs ≡ payload p
        → AreNumbered (length fs) 0 fs
        → KeepsHeaders p fs
        → length fs ≤ o.max_fragments
        → Outcome (true, fs)

  frags_of-Outcome :
      0 < length (payload p)
      → max_frag_overhead + header_of < mtu
      → count_of p mtu header_of ≤ o.max_fragments
      → Outcome (true, frags_of)
  frags_of-Outcome some_bytes room within =
      let count = count_of p mtu header_of in
      let size = mtu - max_frag_overhead in
      let first = first_size p mtu header_of in
      let slots = p ∷ replicate (count - 1) empty_packet in
      let r = split-Ready p mtu header_of some_bytes (ground arith) in
      split frags_of (populate-joined count size 0 first (payload p) slots r)
        (rw length-frags_of (populate-AreNumbered count size 0 first (payload p) slots r))
        (populate-KeepsHeaders count size 0 first (payload p) p
          (replicate (count - 1) empty_packet))
        (omega (arith, length-frags_of))

  -- A packet with a payload is sent whole if it has room for a sequence number; it is refused if
  -- the first fragment would have no room, or there were too many fragments; otherwise the
  -- fragments carry the payload in order, with indices from 0 and their number as count, and the
  -- first of them has the packet's other headers.
  pub fragment_packet-Outcome : 0 < length (payload p) → Outcome (fragment_packet w o p mtu)
  unfolding fragment_packet
  fragment_packet-Outcome some_bytes =
      elim (Bool-cases (leb (max_single_frag_overhead + w.size p) mtu)) [
        | inl fits ↦ rw fits (whole (ground arith))
        | inr large ↦
            rw large
              (split_packet_cases Outcome mtu_too_small over_limit (frags_of-Outcome some_bytes))
      ]
