-- ===== src/Fingerprint/Tests.antt =====
-- Content hashes of an English and two Amharic texts, and instances of the theorems on them.
use duka_scraper.Base.{nat_eq, ◌≡◌, refl, String, []}
use duka_scraper.Base.Text.{Text, codes, lower_code, lstrip, rstrip}
use duka_scraper.Fingerprint.{
  is_space, is_alnum, lower_codes, lower_text, strip, collapse, split_segments, long_segments,
  join_segments, scrub, sub_all, normalize_content, content_hash, boilerplate_patterns,
  entity_patterns,
}
use duka_scraper.Fingerprint.Foreign.{AreForeign, content_hash_foreign}

-- All that a run has to compute with.
hash_runs : Unit {0}
unfolding lower_code lower_codes lower_text lstrip rstrip is_space is_alnum strip collapse
    split_segments long_segments join_segments scrub sub_all normalize_content boilerplate_patterns
    entity_patterns
hash_runs = tt

-- No pattern is found in these texts.
abbrev no_match : String → Text → Text
no_match pattern s = s

abbrev peace : Text
peace = codes "ሰላም ለዓለም"

normalize_content_runs :
    (normalize_content no_match (codes "  Breaking  News! | on") ≡ codes "breaking news")
    × (normalize_content no_match (codes "on | up") ≡ codes "on up")
    × (normalize_content no_match peace ≡ [])
unfolding hash_runs
normalize_content_runs = (refl, refl, refl)

peace-AreForeign : AreForeign peace
unfolding is_alnum
peace-AreForeign = (
  (refl, refl, refl),
  (
    (refl, refl, refl),
    (
      (refl, refl, refl),
      (
        (refl, refl, refl),
        ((refl, refl, refl), ((refl, refl, refl), ((refl, refl, refl), ((refl, refl, refl), tt)))),
      ),
    ),
  ),
)

content_hash_foreign_example :
    (normalize_content no_match peace ≡ [])
    × (content_hash no_match (λ s. "digest") peace ≡ content_hash no_match (λ s. "digest") [])
content_hash_foreign_example =
    content_hash_foreign no_match (λ p s h. h) (λ s. "digest") peace peace-AreForeign
