-- ===== src/Link/Reassembler/Delivery.antt =====
-- The fragments of a message, delivered in any order, and what LpReassembler returns for each.
use ndn_share.Base.{
  ℕ, suc, ◌+◌, ◌-◌, ◌≤◌, ◌<◌, ◌≡◌, refl, ap, sym, ◌∙◌, ◌⊎◌, inl, inr, ◌≢◌, Option, none, some, List,
  [], ◌∷◌, ◌++◌, get_elem?, set, length, length-set, replicate, arith,
}
use ndn_share.Base.Assoc.{lookup, remove, lookup-insert_self, lookup-remove_self}
use ndn_share.Link.Packet.{Bytes, LpPacket, empty_packet, joined}
use ndn_share.Link.Reassembler.{
  Reassembler, PartialPacket, Key, Key-discrete, Received, nothing, complete, find_partial,
  open_partial, store, slot_at, add_fragment, receive_fragment, finish,
}
use ndn_share.Link.Reassembler.Message.{
  IsFragment, IsMessage, IsMessage-get_elem?, get_elem?-lt-length, receive_fragment-IsFragment,
}
use ndn_share.Link.Reassembler.Slots.{
  Matches-get_elem?, filled, Matches, filled-set, filled-replicate, Matches-set, Matches-full,
  Matches-replicate, length-Matches, get_elem?-set_ne, get_elem?-replicate,
}

-- What the reassembler keeps for a key agrees with these slots; without an entry they are empty.
pub record Holds (r : Reassembler) (key : Key) (count : ℕ) (slots : List LpPacket) : Type 0 where
  pub agrees : ((find_partial r key).frag_count ≡ 0) ⊎ ((find_partial r key).frag_count ≡ count)
  pub fragments : (open_partial count (find_partial r key)).fragments ≡ slots
  pub received : (open_partial count (find_partial r key)).n_received ≡ filled slots

find_partial-store :
    (r : Reassembler) (key : Key) (pp : PartialPacket) → find_partial (store r key pp) key ≡ pp
find_partial-store r key pp =
    rw (lookup-insert_self Key-discrete key pp r.partial_packets, find_partial)

store-Holds :
    (r : Reassembler) (key : Key) (count : ℕ) (slots : List LpPacket) (pp : PartialPacket)
    → 0 < count
    → pp.frag_count ≡ count
    → pp.fragments ≡ slots
    → pp.n_received ≡ filled slots
    → Holds (store r key pp) key count slots
store-Holds r key count slots pp pos c f n =
    let e = find_partial-store r key pp in
    record {
      agrees = inr (rw e c);
      fragments = rw e (ground arith);
      received = rw e (ground arith);
    }

module _ {Block : Type 0} (parse : Bytes → Option Block) where
  module _ (r : Reassembler) (now : ℕ) (key : Key) (index count : ℕ) (p s : LpPacket)
      (slots : List LpPacket) (sequence : ℕ) where
    abbrev after_fill : PartialPacket
    after_fill = record {
      fragments = set slots index p;
      frag_count = count;
      n_received = suc (filled slots);
      drop_timer = some (now + r.options.reassembly_timeout);
    }

    -- A fragment that was still missing is kept, and the packet waits for the others.
    add_fragment_waits :
        0 < count
        → Holds r key count slots
        → get_elem? slots index ≡ some s
        → s.sequence ≡ none
        → suc (filled slots) < count
        → add_fragment parse r now key index count p ≡ (store r key after_fill, nothing)
    unfolding add_fragment
    add_fragment_waits pos h at old more = ground (arith, h.agrees, h.fragments, h.received)

    -- The last missing fragment ends in `finish`, over all the slots.
    add_fragment_finishes :
        0 < count
        → Holds r key count slots
        → get_elem? slots index ≡ some s
        → s.sequence ≡ none
        → suc (filled slots) ≡ count
        → (pp : PartialPacket) × (pp.fragments ≡ set slots index p)
          × (add_fragment parse r now key index count p ≡ finish parse r key pp)
    unfolding add_fragment
    add_fragment_finishes pos h at old last = (
      record (open_partial count (find_partial r key)) {
        fragments = set slots index p;
        n_received = suc (filled slots);
      },
      refl,
      ground (arith, h.agrees, h.fragments, h.received),
    )

-- Times of arrival, each with the index of the fragment that arrives.
abbrev pub Order : Type 0
Order = List (ℕ × ℕ)

-- The receiver's calls of `receiveFragment`, and what they return.
unfoldable pub deliver :
    {Block : Type 0}
    → (Bytes → Option Block)
    → (r : Reassembler) (endpoint : ℕ) (fs : List LpPacket) → Order
    → Reassembler × List (Received Block)
deliver parse r endpoint fs [] = (r, [])
deliver parse r endpoint fs ((now, index) ∷ order) =
    let (r', x) = receive_fragment parse r now endpoint (slot_at fs index) in
    let (r'', xs) = deliver parse r' endpoint fs order in (r'', x ∷ xs)

abbrev pub Avoids : ℕ → Order → Type 0
Avoids i [] = Unit
Avoids i ((_, j) ∷ order) = (i ≢ j) × Avoids i order

-- No fragment arrives twice.
abbrev pub Distinct : Order → Type 0
Distinct [] = Unit
Distinct ((_, i) ∷ order) = Avoids i order × Distinct order

abbrev pub InRange : ℕ → Order → Type 0
InRange count [] = Unit
InRange count ((_, i) ∷ order) = (i < count) × InRange count order

-- The fragments to come are still missing.
abbrev pub AreMissing : List LpPacket → Order → Type 0
AreMissing slots [] = Unit
AreMissing slots ((_, i) ∷ order) = (get_elem? slots i ≡ some empty_packet) × AreMissing slots order

AreMissing-set :
    (slots : List LpPacket) (i : ℕ) (f : LpPacket) (order : Order)
    → Avoids i order
    → AreMissing slots order
    → AreMissing (set slots i f) order
AreMissing-set slots i f [] a m = tt
AreMissing-set slots i f ((now, j) ∷ order) a m =
    (get_elem?-set_ne slots i j f a.0 ∙ m.0, AreMissing-set slots i f order a.1 m.1)

-- `finish` over the fragments of a message whose bytes parse.
finish-complete :
    {Block : Type 0} (parse : Bytes → Option Block) (r : Reassembler) (key : Key)
    (pp : PartialPacket) (fs : List LpPacket) (block : Block)
    → pp.fragments ≡ fs
    → parse (joined fs) ≡ some block
    → finish parse r key pp ≡ (
      record r { partial_packets = remove Key-discrete key r.partial_packets },
      complete block (slot_at fs 0),
    )
unfolding finish
finish-complete parse r key pp fs block e ok =
    let g : parse (joined pp.fragments) ≡ some block = ap (λ x. parse (joined x)) e ∙ ok in
    ground (arith, g, e)

module _ {Block : Type 0} (parse : Bytes → Option Block) (endpoint identifier count : ℕ)
    (fs : List LpPacket) (block : Block) (message : IsMessage identifier count 0 fs)
    (all : length fs ≡ count) (two : 2 ≤ count) (parses : parse (joined fs) ≡ some block) where
  abbrev key_of : Key
  key_of = (endpoint, identifier)

  -- What is known while the packet is incomplete.
  record Waiting (r : Reassembler) (slots : List LpPacket) : Type 0 where
    holds : Holds r key_of count slots
    matches : Matches slots fs
    max : count ≤ r.options.max_fragments

  -- One missing fragment arrives.
  receive_missing :
      (r : Reassembler) (slots : List LpPacket) (now i : ℕ)
      → Waiting r slots
      → get_elem? slots i ≡ some empty_packet
      → (f : LpPacket) × (sequence : ℕ) × (slot_at fs i ≡ f)
        × (get_elem? fs i ≡ some f)
        × (f.sequence ≡ some sequence)
        × (receive_fragment parse r now endpoint (slot_at fs i)
            ≡ add_fragment parse r now key_of i count f)
  receive_missing r slots now i w at =
      let (f, found) = Matches-get_elem? slots fs i empty_packet w.matches at in
      let is = IsMessage-get_elem? identifier count 0 i fs f message found in
      let e : 0 + i ≡ i = omega arith in
      let is' : IsFragment identifier count i f = rw e at is in
      let at_i : slot_at fs i ≡ f = rw (found, slot_at) in
      (
        f,
        is'.sequence_number,
        at_i,
        found,
        is'.sequenced,
        rw at_i (
            receive_fragment-IsFragment parse r now endpoint identifier count i f is'
              (omega (arith, get_elem?-lt-length fs i f found)) two w.max),
      )

  -- The last missing fragment completes the packet.
  receive_last :
      (r : Reassembler) (slots : List LpPacket) (now i : ℕ)
      → Waiting r slots
      → get_elem? slots i ≡ some empty_packet
      → suc (filled slots) ≡ count
      → receive_fragment parse r now endpoint (slot_at fs i) ≡ (
        record r { partial_packets = remove Key-discrete key_of r.partial_packets },
        complete block (slot_at fs 0),
      )
  receive_last r slots now i w at last =
      let (f, n, at_i, found, seq, eq) = receive_missing r slots now i w at in
      let (pp, frags, fin) =
        add_fragment_finishes parse r now key_of i count f empty_packet slots n (omega arith)
          w.holds at refl last in
      let full : set slots i f ≡ fs =
        Matches-full (set slots i f) fs (Matches-set slots fs i f w.matches found) (
          omega (
            arith,
            filled-set slots i empty_packet f n at refl seq,
            length-set slots i f,
            length-Matches slots fs w.matches,
          )) in
      eq ∙ fin ∙ finish-complete parse r key_of pp fs block (frags ∙ full) parses

  -- Any other leaves it waiting.
  receive_more :
      (r : Reassembler) (slots : List LpPacket) (now i : ℕ)
      → Waiting r slots
      → get_elem? slots i ≡ some empty_packet
      → suc (filled slots) < count
      → (r' : Reassembler) × (f : LpPacket) × (receive_fragment parse r now endpoint (slot_at fs i)
          ≡ (r', nothing))
        × Waiting r' (set slots i f)
        × (filled (set slots i f) ≡ suc (filled slots))
  receive_more r slots now i w at more =
      let (f, n, at_i, found, seq, eq) = receive_missing r slots now i w at in
      let fill = filled-set slots i empty_packet f n at refl seq in
      (
        _,
        f,
        eq
            ∙ add_fragment_waits parse r now key_of i count f empty_packet slots n (omega arith)
                w.holds at refl more,
        record {
          holds = store-Holds r key_of count (set slots i f) _ (omega arith) refl refl (sym fill);
          matches = Matches-set slots fs i f w.matches found;
          max = w.max;
        },
        fill,
      )

  deliver_rest :
      (r : Reassembler) (slots : List LpPacket) (now i : ℕ) (order : Order)
      → Waiting r slots
      → AreMissing slots ((now, i) ∷ order)
      → Distinct ((now, i) ∷ order)
      → filled slots + length ((now, i) ∷ order) ≡ count
      → ((deliver parse r endpoint fs ((now, i) ∷ order)).1
          ≡ replicate (length order) nothing ++ complete block (slot_at fs 0) ∷ [])
        × (lookup Key-discrete key_of
              (deliver parse r endpoint fs ((now, i) ∷ order)).0.partial_packets
            ≡ none)
  unfolding deliver
  deliver_rest r slots now i [] w m d n =
      rw (receive_last r slots now i w m.0 (omega arith))
        (refl, lookup-remove_self Key-discrete key_of r.partial_packets)
  deliver_rest r slots now i ((later, j) ∷ order) w m d n =
      let (r', f, eq, w', fill) = receive_more r slots now i w m.0 (omega arith) in
      let ih =
        deliver_rest r' (set slots i f) later j order w'
          (AreMissing-set slots i f ((later, j) ∷ order) d.0 m.1) d.1 (omega arith) in
      rw eq (ap (◌∷◌ nothing) ih.0, ih.1)

  AreMissing-replicate :
      (order : Order) → InRange count order → AreMissing (replicate count empty_packet) order
  AreMissing-replicate [] h = tt
  AreMissing-replicate ((now, i) ∷ order) h =
      (get_elem?-replicate count i empty_packet h.0, AreMissing-replicate order h.1)

  -- The fragments of a message, at least two, arrive in any order and each once at a reassembler that
  -- has none of them and whose limit lets so many in. Nothing is complete before the last to arrive,
  -- which completes the message with the bytes of all of them in order, if they parse; the partial
  -- packet is dropped.
  pub deliver_all :
      (r : Reassembler) (order : Order)
      → lookup Key-discrete key_of r.partial_packets ≡ none
      → count ≤ r.options.max_fragments
      → InRange count order
      → Distinct order
      → length order ≡ count
      → ((deliver parse r endpoint fs order).1
          ≡ replicate (count - 1) nothing ++ complete block (slot_at fs 0) ∷ [])
        × (lookup Key-discrete key_of (deliver parse r endpoint fs order).0.partial_packets ≡ none)
  deliver_all r [] fresh max range d n = absurd (omega arith)
  deliver_all r ((now, i) ∷ order) fresh max range d n =
      let e : count - 1 ≡ length order = omega arith in
      rw e (
        deliver_rest r (replicate count empty_packet) now i order
          (record {
            holds = record {
              agrees = inl (rw (fresh, find_partial));
              fragments = rw (fresh, find_partial);
              received = rw (fresh, find_partial) (sym (filled-replicate count));
            };
            matches = rw (← all) (Matches-replicate fs);
            max = max;
          })
          (AreMissing-replicate ((now, i) ∷ order) range) d
          (rw (filled-replicate count) (omega arith)))
