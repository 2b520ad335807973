-- ===== src/Packet.antt =====
-- Network packets of ndn-cxx, as the fields that the forwarder reads and writes. Names are
-- ndn-cxx's: their type is a parameter, and what is asked of them is the record NameOps.
-- Times are nanoseconds from TimePoint::min().
use ndn_share.Base.{ℕ, ◌*◌, Bool, Option, List, ℤ, pos, negsuc}

pub record NameOps (Name : Type 0) : Type 0 where
  pub discrete : Discrete Name
  pub is_prefix_of : Name → Name → Bool
  pub localhost : Name
  pub localhop : Name
  pub to_uri : Name → List ℕ
  pub of_uri : List ℕ → Name

-- Durations are in milliseconds; a negative one stands for an absent field.
pub record Interest (Name : Type 0) : Type 0 where
  pub name : Name
  pub selectors : ℕ
  pub nonce : ℕ
  pub lifetime : ℤ
  pub must_be_fresh : Bool
  pub queried_name : Option Name
  pub next_hop_face_id : Option ℕ

pub record Data (Name : Type 0) : Type 0 where
  pub name : Name
  pub content : ℕ
  pub freshness_period : ℤ

abbrev pub nanoseconds : ℕ → ℕ
nanoseconds milliseconds = 1_000_000 * milliseconds

-- ndn::DEFAULT_INTEREST_LIFETIME is ndn-cxx's: a parameter of what uses it.
abbrev pub lifetime_or : ℕ → ℤ → ℕ
lifetime_or default_lifetime (pos ms) = ms
lifetime_or default_lifetime (negsuc _) = default_lifetime
