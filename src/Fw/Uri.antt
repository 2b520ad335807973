-- ===== src/Fw/Uri.antt =====
-- The URI marks by which fw/forwarder.cpp recognises a query and a queried name. A URI is the list
-- of its bytes, and std::string's find, find_last_of and substr are written out over lists.
use ndn_share.Base.{
  ℕ, ◌+◌, Bool, true, false, ◌&&◌, Option, none, some, List, [], ◌∷◌, ◌++◌, ◌==◌, if◌then◌else◌,
  take,
}
use ndn_share.Packet.{NameOps}

abbrev pub Uri : Type 0
Uri = List ℕ

unfoldable pub starts_with : Uri → Uri → Bool
starts_with [] s = true
starts_with (c ∷ p) [] = false
starts_with (c ∷ p) (d ∷ s) = c == d && starts_with p s

-- s.find(p), `none` for npos
unfoldable pub find_from : ℕ → Uri → Uri → Option ℕ
unfolding starts_with
find_from i p [] = if starts_with p [] then some i else none
find_from i p (c ∷ s) =
    let rest = find_from (i + 1) p s in if starts_with p (c ∷ s) then some i else rest

-- s.substr(s.find_last_of("/") + 1)
unfoldable pub after_last_slash_from : Uri → Uri → Uri
after_last_slash_from word [] = word
after_last_slash_from word (c ∷ s) = after_last_slash_from (if c == b'/' then s else word) s

unfoldable pub after_last_slash : Uri → Uri
unfolding after_last_slash_from
after_last_slash s = after_last_slash_from s s

-- "/query"
abbrev pub query_mark : Uri
query_mark = b'/' ∷ b'q' ∷ b'u' ∷ b'e' ∷ b'r' ∷ b'y' ∷ []

-- "/queried"
abbrev pub queried_mark : Uri
queried_mark = b'/' ∷ b'q' ∷ b'u' ∷ b'e' ∷ b'r' ∷ b'i' ∷ b'e' ∷ b'd' ∷ []

module _ {Name : Type 0} (names : NameOps Name) where
  -- The name that replaces a queried one: what stands before the first "/queried".
  unfoldable pub unqueried : Name → Option Name
  unfolding find_from
  unqueried name = elim (find_from 0 queried_mark (names.to_uri name)) [
    | none ↦ none
    | some position ↦ some (names.of_uri (take position (names.to_uri name)))
  ]

  unfoldable pub is_query : Name → Bool
  unfolding find_from
  is_query name = elim (find_from 0 query_mark (names.to_uri name)) [
    | none ↦ false
    | some position ↦ true
  ]

  -- The name of a query, with the word that is close to its last one.
  unfoldable pub queried : (fuzz_word : Uri → Uri) → Name → Name
  unfolding after_last_slash
  queried fuzz_word name = names.of_uri (
      names.to_uri name
      ++ (queried_mark ++ (b'/' ∷ fuzz_word (after_last_slash (names.to_uri name)))))
