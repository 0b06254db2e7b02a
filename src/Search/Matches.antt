-- ===== src/Search/Matches.antt =====
-- The matches that a search keeps: models/filesearching/CurrentSearchRequest.go, AddFullMatch.
use decentralized_peerster.Common.{
  ◌≡◌, refl, true, false, List, [], ◌∷◌, ◌++◌, arith, All, Bool-cases, inl, inr,
}
use decentralized_peerster.Search.{
  FullSearchMatch, CurrentSearchRequest, same_match, has_match, add_full_match,
}

-- No two matches have one origin and one hash.
abbrev pub Distinct : List FullSearchMatch → Type 0
Distinct [] = Unit
Distinct (m ∷ ms) = All (λ other. same_match m other ≡ false) ms × Distinct ms

All-append_last :
    (P : FullSearchMatch → Type 0) (ms : List FullSearchMatch) (m : FullSearchMatch)
    → All P ms
    → P m
    → All P (ms ++ m ∷ [])
All-append_last P [] m all p = (p, tt)
All-append_last P (n ∷ ms) m all p = (all.0, All-append_last P ms m all.1 p)

same_match_sym : (a b : FullSearchMatch) → same_match a b ≡ same_match b a
same_match_sym a b = ground arith

Distinct-append_last :
    (ms : List FullSearchMatch) (m : FullSearchMatch)
    → Distinct ms
    → has_match ms m ≡ false
    → Distinct (ms ++ m ∷ [])
unfolding has_match
Distinct-append_last [] m d h = (tt, tt)
Distinct-append_last (n ∷ ms) m d h = (
  All-append_last (λ other. same_match n other ≡ false) ms m d.0 (ground arith),
  Distinct-append_last ms m d.1 (ground arith),
)

has_match-append_last :
    (ms : List FullSearchMatch) (m : FullSearchMatch) → has_match (ms ++ m ∷ []) m ≡ true
unfolding has_match
has_match-append_last [] m = ground arith
has_match-append_last (n ∷ ms) m = ground (arith, has_match-append_last ms m)

-- If no two matches of a search have one origin and one metafile hash, then AddFullMatch keeps
-- this, the match is there afterwards, and to add it again changes nothing.
pub add_full_match-Distinct :
    (csr : CurrentSearchRequest) (match : FullSearchMatch)
    → Distinct csr.full_matches
    → Distinct (add_full_match csr match).full_matches
      × (has_match (add_full_match csr match).full_matches match ≡ true)
      × (add_full_match (add_full_match csr match) match ≡ add_full_match csr match)
unfolding add_full_match
add_full_match-Distinct csr match d = elim (Bool-cases (has_match csr.full_matches match)) [
  | inl has ↦ rw has (rw has (d, refl, refl))
  | inr new ↦
      let last = has_match-append_last csr.full_matches match in
      rw new (rw last (Distinct-append_last csr.full_matches match d new, refl, refl))
]
