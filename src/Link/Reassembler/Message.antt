-- ===== src/Link/Reassembler/Message.antt =====
-- The fragments of one message as they travel: numbered, and with consecutive sequence numbers.
use native.Mathlib.Nat.{add-zero}
use ndn_share.Base.{
  ℕ, zero, suc, ◌+◌, ◌-◌, ◌%◌, ◌≤◌, ◌<◌, ◌≡◌, Option, some, List, [], ◌∷◌, get_elem?, length, arith,
}
use ndn_share.Link.Packet.{Bytes, LpPacket, word}
use ndn_share.Link.Reassembler.{Reassembler, receive_fragment, add_fragment}

pub record IsFragment (identifier count index : ℕ) (f : LpPacket) : Type 0 where
  pub sequence_number : ℕ
  pub numbered : f.frag_index ≡ some index
  pub counted : f.frag_count ≡ some count
  pub sequenced : f.sequence ≡ some sequence_number
  pub identified : (sequence_number + word - index) % word ≡ identifier

abbrev pub IsMessage : (identifier count index : ℕ) → List LpPacket → Type 0
IsMessage identifier count index [] = Unit
IsMessage identifier count index (f ∷ fs) =
    IsFragment identifier count index f × IsMessage identifier count (suc index) fs

pub IsMessage-get_elem? :
    (identifier count index i : ℕ) (fs : List LpPacket) (f : LpPacket)
    → IsMessage identifier count index fs
    → get_elem? fs i ≡ some f
    → IsFragment identifier count (index + i) f
IsMessage-get_elem? identifier count index i [] f m at = absurd (cc)
IsMessage-get_elem? identifier count index zero (g ∷ fs) f m at =
    let e : g ≡ f = ground arith in rw (add-zero, ← e) m.0
IsMessage-get_elem? identifier count index (suc i) (g ∷ fs) f m at =
    let e : index + suc i ≡ suc index + i = omega arith in
    rw e (IsMessage-get_elem? identifier count (suc index) i fs f m.1 at)

pub get_elem?-lt-length {ℓ} :
    {A : Type ℓ} (xs : List A) (i : ℕ) (x : A) → get_elem? xs i ≡ some x → i < length xs
get_elem?-lt-length [] i x at = absurd (cc)
get_elem?-lt-length (y ∷ xs) zero x at = omega arith
get_elem?-lt-length (y ∷ xs) (suc i) x at = omega (arith, get_elem?-lt-length xs i x at)

-- A well-formed fragment of a split message goes to its partial packet.
pub receive_fragment-IsFragment :
    {Block : Type 0} (parse : Bytes → Option Block) (r : Reassembler)
    (now endpoint identifier count index : ℕ) (f : LpPacket)
    → IsFragment identifier count index f
    → index < count
    → 2 ≤ count
    → count ≤ r.options.max_fragments
    → receive_fragment parse r now endpoint f
      ≡ add_fragment parse r now (endpoint, identifier) index count f
unfolding receive_fragment
receive_fragment-IsFragment parse r now endpoint identifier count index f i lt two max =
    rw (i.numbered, i.counted, i.sequenced) (ground (arith, i.identified))
