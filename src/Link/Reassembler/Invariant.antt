-- ===== src/Link/Reassembler/Invariant.antt =====
-- What every partial packet of an LpReassembler satisfies, through every operation.
use ndn_share.Base.{
  ℕ, zero, suc, ◌+◌, ◌≤◌, ◌<◌, ◌-◌, ◌%◌, ◌≡◌, refl, ◌∙◌, ◌⊎◌, inl, inr, Option, none, some,
  Option-cases, Bool-cases, false, List, [], ◌∷◌, length, length-set, length-replicate, get_elem?,
  set, ltb, leb, ◌==◌, ◌&&◌, not, arith,
}
use ndn_share.Base.Assoc.{lookup, AllValues, AllValues-insert, AllValues-remove, AllValues-lookup}
use ndn_share.Link.Packet.{Bytes, LpPacket, empty_packet, has, joined, word}
use ndn_share.Link.Reassembler.{
  Reassembler, PartialPacket, Key, Key-discrete, Received, nothing, find_partial, open_partial,
  store, slot_at, finish, add_fragment, receive_fragment, timeout_partial_packet, get_or,
  new_partial,
}
use ndn_share.Link.Reassembler.Slots.{filled, filled-set, filled-replicate}

-- The slots are as many as the fragment count, which is positive and within the limit, and the
-- counter is the number of slots that are filled.
pub record IsPartial (max : ℕ) (pp : PartialPacket) : Type 0 where
  pub positive : 0 < pp.frag_count
  pub limited : pp.frag_count ≤ max
  pub sized : length pp.fragments ≡ pp.frag_count
  pub counted : pp.n_received ≡ filled pp.fragments

abbrev pub IsValid : Reassembler → Type 0
IsValid r = AllValues (IsPartial r.options.max_fragments) r.partial_packets

find_partial-IsPartial :
    (r : Reassembler) (key : Key)
    → IsValid r
    → (find_partial r key ≡ new_partial) ⊎ IsPartial r.options.max_fragments (find_partial r key)
find_partial-IsPartial r key v = elim (Option-cases (lookup Key-discrete key r.partial_packets)) [
  | inl e ↦ inl (rw (e, find_partial))
  | inr (pp, e) ↦ inr (
      rw (e, find_partial)
        (AllValues-lookup Key-discrete (IsPartial r.options.max_fragments) key r.partial_packets v
          e))
]

open_partial-IsPartial :
    (max count : ℕ) (found : PartialPacket)
    → 0 < count
    → count ≤ max
    → (found ≡ new_partial) ⊎ IsPartial max found
    → IsPartial max (open_partial count found)
open_partial-IsPartial max count found pos lim (inl e) = rw e (record {
  positive = pos;
  limited = lim;
  sized = length-replicate count empty_packet;
  counted = rw (filled-replicate count);
})
open_partial-IsPartial max count found pos lim (inr v) =
    ground (arith, v.positive, v.limited, v.sized, v.counted)

get_elem?_in_range {ℓ} :
    {A : Type ℓ} (xs : List A) (i : ℕ) → i < length xs → (x : A) × (get_elem? xs i ≡ some x)
get_elem?_in_range [] i h = elim h [ ]
get_elem?_in_range (x ∷ xs) zero h = (x, refl)
get_elem?_in_range (x ∷ xs) (suc i) h = get_elem?_in_range xs i (omega arith)

abbrev fill : PartialPacket → ℕ → LpPacket → PartialPacket
fill pp index p = record pp { fragments = set pp.fragments index p; n_received = pp.n_received + 1 }

has-none {ℓ} : {A : Type ℓ} (o : Option A) → has o ≡ false → o ≡ none
has-none none h = refl
has-none (some a) h = cc

fill-IsPartial :
    (max : ℕ) (pp : PartialPacket) (index : ℕ) (p : LpPacket) (n : ℕ)
    → IsPartial max pp
    → index < pp.frag_count
    → p.sequence ≡ some n
    → has (slot_at pp.fragments index).sequence ≡ false
    → IsPartial max (fill pp index p)
fill-IsPartial max pp index p n v lt seq empty =
    let (s, at) = get_elem?_in_range pp.fragments index (omega (arith, v.sized)) in
    let old : s.sequence ≡ none = has-none s.sequence (rw (at, slot_at) at empty) in
    record {
      positive = v.positive;
      limited = v.limited;
      sized = length-set pp.fragments index p ∙ v.sized;
      counted = omega (arith, v.counted, filled-set pp.fragments index s p n at old seq);
    }

module _ {Block : Type 0} (parse : Bytes → Option Block) where
  store-IsValid :
      (r : Reassembler) (key : Key) (pp : PartialPacket)
      → IsValid r
      → IsPartial r.options.max_fragments pp
      → IsValid (store r key pp)
  store-IsValid r key pp v h =
      AllValues-insert Key-discrete (IsPartial r.options.max_fragments) key pp r.partial_packets h v

  finish-IsValid :
      (r : Reassembler) (key : Key) (pp : PartialPacket)
      → IsValid r
      → IsPartial r.options.max_fragments pp
      → IsValid (finish parse r key pp).0
  unfolding finish
  finish-IsValid r key pp v h = elim (Option-cases (parse (joined pp.fragments))) [
    | inl e ↦ rw (e, finish) (store-IsValid r key pp v h)
    | inr (b, e) ↦
        rw (e, finish)
          (AllValues-remove Key-discrete (IsPartial r.options.max_fragments) key r.partial_packets
            v)
  ]

  add_fragment-IsValid :
      (r : Reassembler) (now : ℕ) (key : Key) (index count : ℕ) (p : LpPacket) (n : ℕ)
      → IsValid r
      → index < count
      → count ≤ r.options.max_fragments
      → p.sequence ≡ some n
      → IsValid (add_fragment parse r now key index count p).0
  unfolding add_fragment
  add_fragment-IsValid r now key index count p n v lt lim seq =
      let found = find_partial r key in
      let pp = open_partial count found in
      let vp =
        open_partial-IsPartial r.options.max_fragments count found (omega arith) lim
          (find_partial-IsPartial r key v) in
      elim (Bool-cases (not (found.frag_count == 0) && not (count == found.frag_count))) [
        | inl changed ↦ rw changed v
        | inr agrees ↦ elim (Bool-cases (has (slot_at pp.fragments index).sequence)) [
          | inl twice ↦ rw (agrees, twice) (store-IsValid r key pp v vp)
          | inr new ↦
              let in_range : index < pp.frag_count = ground arith in
              let vf = fill-IsPartial r.options.max_fragments pp index p n vp in_range seq new in
              elim (Bool-cases (pp.n_received + 1 == pp.frag_count)) [
                | inl last ↦ rw (agrees, new, last) (finish-IsValid r key (fill pp index p) v vf)
                | inr more ↦
                    rw (agrees, new, more)
                      (store-IsValid r key
                        (record (fill pp index p) {
                          drop_timer = some (now + r.options.reassembly_timeout);
                        })
                        v
                        (record {
                          positive = vf.positive;
                          limited = vf.limited;
                          sized = vf.sized;
                          counted = vf.counted;
                        }))
              ]
        ]
      ]

  -- A received packet leaves well-formed partial packets well-formed.
  pub receive_fragment-IsValid :
      (r : Reassembler) (now endpoint : ℕ) (p : LpPacket)
      → IsValid r
      → IsValid (receive_fragment parse r now endpoint p).0
  unfolding receive_fragment
  receive_fragment-IsValid r now endpoint p v = elim (Bool-cases (leb count index)) [
    | inl e ↦ rw e v
    | inr e ↦ elim (Bool-cases (ltb r.options.max_fragments count)) [
      | inl f ↦ rw (e, f) v
      | inr f ↦ elim (Bool-cases (index == 0 && count == 1)) [
        | inl g ↦ rw (e, f, g) v
        | inr g ↦ rw (e, f, g) (sequenced p.sequence refl (ground arith) (ground arith))
      ]
    ]
  ]
    where
      index : ℕ
      index = get_or p.frag_index 0

      count : ℕ
      count = get_or p.frag_count 1

      sequenced :
          (o : Option ℕ)
          → p.sequence ≡ o
          → index < count
          → count ≤ r.options.max_fragments
          → IsValid
              (elim o as (λ x. Reassembler × Received Block) [
                | none ↦ (r, nothing)
                | some sequence ↦
                    add_fragment parse r now
                      (endpoint, (sequence + word - index) % word)
                      index
                      count
                      p
              ]).0
      sequenced none e lt lim = v
      sequenced (some n) e lt lim = add_fragment-IsValid r now _ index count p n v lt lim e

-- So does a drop timer, which leaves every other partial packet.
pub timeout_partial_packet-IsValid :
    (r : Reassembler) (key : Key) → IsValid r → IsValid (timeout_partial_packet r key).0
unfolding timeout_partial_packet
timeout_partial_packet-IsValid r key v =
    elim (Option-cases (lookup Key-discrete key r.partial_packets)) [
      | inl e ↦ rw (e, timeout_partial_packet) v
      | inr (pp, e) ↦
          rw (e, timeout_partial_packet)
            (AllValues-remove Key-discrete (IsPartial r.options.max_fragments) key r.partial_packets
              v)
    ]

-- What happens to a reassembler: a packet is received, or a drop timer fires.
pub data Event : Type 0 where
  receives : (now endpoint : ℕ) → LpPacket → Event
  times_out : Key → Event

module _ {Block : Type 0} (parse : Bytes → Option Block) where
  pub after_events : Reassembler → List Event → Reassembler
  after_events r [] = r
  after_events r (receives now endpoint p ∷ es) =
      after_events (receive_fragment parse r now endpoint p).0 es
  after_events r (times_out key ∷ es) = after_events (timeout_partial_packet r key).0 es

  after_events-keeps : (r : Reassembler) (es : List Event) → IsValid r → IsValid (after_events r es)
  unfolding after_events
  after_events-keeps r [] v = v
  after_events-keeps r (receives now endpoint p ∷ es) v =
      after_events-keeps (receive_fragment parse r now endpoint p).0 es
        (receive_fragment-IsValid parse r now endpoint p v)
  after_events-keeps r (times_out key ∷ es) v =
      after_events-keeps (timeout_partial_packet r key).0 es
        (timeout_partial_packet-IsValid r key v)

  -- Whatever packets a reassembler receives, and whichever drop timers fire, from the start on: each
  -- partial packet that it holds has a positive FragCount within the limit, as many slots, and as its
  -- number of received fragments that of the slots that are filled.
  pub after_events-IsValid :
      (r : Reassembler) (es : List Event) → r.partial_packets ≡ [] → IsValid (after_events r es)
  after_events-IsValid r es empty = after_events-keeps r es (rw empty tt)
