-- ===== src/Assignment/Hosts.antt =====
-- What it means that a host matches a list of domains (`_hostname_matches`,
-- app/common/constants/worker_assignment.py).
use mathlib.Core.List.{append_assoc}
use duka_scraper.Base.{
  ◌≡◌, sym, ap, ◌↔◌, ◌⊎◌, inl, inr, String, true, List, [], ◌∷◌, ◌++◌, arith, ◌==◌, Bool-cases,
  AnyOf,
}
use duka_scraper.Base.Text.{Text, codes, text_eq, text_beq_iff, ends_with, ends_with_iff}
use duka_scraper.Assignment.{hostname_matches}

-- A host is under a domain: the domain itself, or some labels, a dot and the domain.
abbrev pub IsUnder : Text → String → Type 0
IsUnder host d = (host ≡ codes d) ⊎ ((p : Text) × (host ≡ p ++ b'.' ∷ codes d))

hostname_matches_sound :
    (host : Text) (ds : List String) → hostname_matches host ds ≡ true → AnyOf (IsUnder host) ds
unfolding hostname_matches
hostname_matches_sound host [] h = cc
hostname_matches_sound host (d ∷ ds) h = elim (Bool-cases (host == codes d)) [
  | inl same ↦ inl (inl ((text_beq_iff host (codes d)).0 same))
  | inr other ↦ elim (Bool-cases (ends_with host (b'.' ∷ codes d))) [
    | inl sub ↦ inl (inr ((ends_with_iff host (b'.' ∷ codes d)).0 sub))
    | inr none_of ↦ inr (hostname_matches_sound host ds (ground arith))
  ]
]

hostname_matches_complete :
    (host : Text) (ds : List String) → AnyOf (IsUnder host) ds → hostname_matches host ds ≡ true
unfolding hostname_matches
hostname_matches_complete host [] h = absurd h
hostname_matches_complete host (d ∷ ds) (inl (inl e)) =
    ground (arith, (text_beq_iff host (codes d)).1 e)
hostname_matches_complete host (d ∷ ds) (inl (inr e)) =
    ground (arith, (ends_with_iff host (b'.' ∷ codes d)).1 e)
hostname_matches_complete host (d ∷ ds) (inr m) =
    ground (arith, hostname_matches_complete host ds m)

-- A host matches a list exactly when it is one of its domains or a subdomain of one: the dot is
-- part of the test, so that a domain which merely ends in the same letters does not match.
pub hostname_matches_iff :
    (host : Text) (ds : List String) → (hostname_matches host ds ≡ true) ↔ AnyOf (IsUnder host) ds
hostname_matches_iff host ds = (hostname_matches_sound host ds, hostname_matches_complete host ds)

IsUnder-subdomain : (p host : Text) (d : String) → IsUnder host d → IsUnder (p ++ b'.' ∷ host) d
IsUnder-subdomain p host d (inl e) = inr (p, ap (λ h. p ++ b'.' ∷ h) e)
IsUnder-subdomain p host d (inr (q, e)) =
    inr (p ++ b'.' ∷ q, rw e (sym (append_assoc p (b'.' ∷ q) (b'.' ∷ codes d))))

AnyOf-subdomain :
    (p host : Text) (ds : List String)
    → AnyOf (IsUnder host) ds
    → AnyOf (IsUnder (p ++ b'.' ∷ host)) ds
AnyOf-subdomain p host [] h = h
AnyOf-subdomain p host (d ∷ ds) (inl u) = inl (IsUnder-subdomain p host d u)
AnyOf-subdomain p host (d ∷ ds) (inr h) = inr (AnyOf-subdomain p host ds h)

-- Every subdomain of a host that matches a list matches it too, at any depth.
pub hostname_matches-subdomain :
    (p host : Text) (ds : List String)
    → hostname_matches host ds ≡ true
    → hostname_matches (p ++ b'.' ∷ host) ds ≡ true
hostname_matches-subdomain p host ds h =
    hostname_matches_complete _ ds (AnyOf-subdomain p host ds (hostname_matches_sound host ds h))
