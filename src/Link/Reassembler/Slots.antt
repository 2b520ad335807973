-- ===== src/Link/Reassembler/Slots.antt =====
-- The slots of a partial packet against the fragments of the message that it belongs to.
use ndn_share.Base.{
  ℕ, zero, suc, ◌+◌, ◌≤◌, ◌<◌, ◌≡◌, refl, ap, ◌⊎◌, inl, inr, none, some, List, [], ◌∷◌, get_elem?,
  set, length, replicate, if◌then◌else◌, arith, ◌≢◌,
}
use ndn_share.Link.Packet.{LpPacket, empty_packet, has}

-- The slots that hold a fragment with a sequence number.
abbrev pub filled : List LpPacket → ℕ
filled [] = 0
filled (s ∷ ss) = (if has s.sequence then 1 else 0) + filled ss

-- Each slot is still empty, or holds the fragment with its index.
abbrev pub Matches : List LpPacket → List LpPacket → Type 0
Matches [] [] = Unit
Matches [] (f ∷ fs) = ⊥
Matches (s ∷ ss) [] = ⊥
Matches (s ∷ ss) (f ∷ fs) = ((s ≡ empty_packet) ⊎ (s ≡ f)) × Matches ss fs

pub filled-le-length : (ss : List LpPacket) → filled ss ≤ length ss
filled-le-length [] = omega arith
filled-le-length (s ∷ ss) = ground (arith, filled-le-length ss)

pub filled-replicate : (n : ℕ) → filled (replicate n empty_packet) ≡ 0
filled-replicate zero = refl
filled-replicate (suc n) = omega (arith, filled-replicate n)

pub filled-set :
    (ss : List LpPacket) (i : ℕ) (s p : LpPacket) (n : ℕ)
    → get_elem? ss i ≡ some s
    → s.sequence ≡ none
    → p.sequence ≡ some n
    → filled (set ss i p) ≡ suc (filled ss)
filled-set [] i s p n at old new = cc
filled-set (x ∷ ss) zero s p n at old new = ground arith
filled-set (x ∷ ss) (suc i) s p n at old new = ground (arith, filled-set ss i s p n at old new)

pub Matches-set :
    (ss fs : List LpPacket) (i : ℕ) (f : LpPacket)
    → Matches ss fs
    → get_elem? fs i ≡ some f
    → Matches (set ss i f) fs
Matches-set [] fs i f m at = m
Matches-set (s ∷ ss) [] i f m at = absurd m
Matches-set (s ∷ ss) (g ∷ fs) zero f m at = (inr (ground arith), m.1)
Matches-set (s ∷ ss) (g ∷ fs) (suc i) f m at = (m.0, Matches-set ss fs i f m.1 at)

pub Matches-replicate : (fs : List LpPacket) → Matches (replicate (length fs) empty_packet) fs
Matches-replicate [] = tt
Matches-replicate (f ∷ fs) = (inl refl, Matches-replicate fs)

pub length-Matches : (ss fs : List LpPacket) → Matches ss fs → length ss ≡ length fs
length-Matches [] [] m = refl
length-Matches [] (f ∷ fs) m = absurd m
length-Matches (s ∷ ss) [] m = absurd m
length-Matches (s ∷ ss) (f ∷ fs) m = ap suc (length-Matches ss fs m.1)

-- When every slot is filled, the slots are the message's fragments.
pub Matches-full : (ss fs : List LpPacket) → Matches ss fs → filled ss ≡ length ss → ss ≡ fs
Matches-full [] [] m full = refl
Matches-full [] (f ∷ fs) m full = absurd m
Matches-full (s ∷ ss) [] m full = absurd m
Matches-full (s ∷ ss) (f ∷ fs) (inl e, m) full = absurd (ground (arith, filled-le-length ss))
Matches-full (s ∷ ss) (f ∷ fs) (inr e, m) full =
    ground (arith, filled-le-length ss, Matches-full ss fs m)

pub get_elem?-set_ne {ℓ} :
    {A : Type ℓ} (xs : List A) (i j : ℕ) (v : A) → i ≢ j → get_elem? (set xs i v) j ≡ get_elem? xs j
get_elem?-set_ne [] i j v h = refl
get_elem?-set_ne (x ∷ xs) zero zero v h = absurd (h refl)
get_elem?-set_ne (x ∷ xs) zero (suc j) v h = refl
get_elem?-set_ne (x ∷ xs) (suc i) zero v h = refl
get_elem?-set_ne (x ∷ xs) (suc i) (suc j) v h = get_elem?-set_ne xs i j v (λ e. h (ap suc e))

pub Matches-get_elem? :
    (ss fs : List LpPacket) (i : ℕ) (s : LpPacket)
    → Matches ss fs
    → get_elem? ss i ≡ some s
    → (f : LpPacket) × (get_elem? fs i ≡ some f)
Matches-get_elem? [] fs i s m at = absurd (cc)
Matches-get_elem? (x ∷ ss) [] i s m at = absurd m
Matches-get_elem? (x ∷ ss) (f ∷ fs) zero s m at = (f, refl)
Matches-get_elem? (x ∷ ss) (f ∷ fs) (suc i) s m at = Matches-get_elem? ss fs i s m.1 at

pub get_elem?-replicate {ℓ} :
    {A : Type ℓ} (n i : ℕ) (a : A) → i < n → get_elem? (replicate n a) i ≡ some a
get_elem?-replicate zero i a h = elim h [ ]
get_elem?-replicate (suc n) zero a h = refl
get_elem?-replicate (suc n) (suc i) a h = get_elem?-replicate n i a (omega arith)
