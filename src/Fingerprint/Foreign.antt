-- ===== src/Fingerprint/Foreign.antt =====
-- What the content hash sees of texts in other scripts than that of ASCII
-- (app/services/content_fingerprint_service.py).
use duka_scraper.Base.{
  ℕ, nat_eq, ◌≡◌, refl, ap, String, Bool, true, false, ◌&&◌, ◌||◌, nat_beq, List, [], ◌∷◌, map,
  keep, arith, All, if_ind, All-append, if◌then◌else◌, ltb, leb, length, not,
}
use duka_scraper.Base.Text.{Text, lower_code, lstrip, rstrip, is_empty}
use duka_scraper.Fingerprint.{
  is_space, is_alnum, lower_codes, lower_text, strip, is_delimiter, split_segments, long_segments,
  join_segments, scrub, sub_all, content_segments, normalize_content, content_hash,
  boilerplate_patterns, entity_patterns,
}
use duka_scraper.Fingerprint.Alphabet.{All-strip, All-collapse}

-- Neither a digit nor a letter of ASCII, be it small or not, nor one of the two codes, U+0130 and
-- U+212A, whose lower case has such a letter.
abbrev pub IsForeign : ℕ → Type 0
IsForeign c =
    (is_alnum c ≡ false)
    × ((leb b'A' c && leb c b'Z') ≡ false)
    × ((nat_beq c 304 || nat_beq c 8490) ≡ false)

abbrev pub AreForeign : Text → Type 0
AreForeign s = All IsForeign s

IsForeign-lower_code : (c : ℕ) → IsForeign c → IsForeign (lower_code c)
unfolding lower_code
IsForeign-lower_code c one = ground (arith, one)

lower_codes_foreign : (c : ℕ) → IsForeign c → lower_codes c ≡ lower_code c ∷ []
unfolding lower_codes
lower_codes_foreign c one = ground (arith, one)

AreForeign-lower_text : (s : Text) → AreForeign s → AreForeign (lower_text s)
unfolding lower_text
AreForeign-lower_text [] h = tt
AreForeign-lower_text (c ∷ s) (one, rest) =
    rw (lower_codes_foreign c one) (IsForeign-lower_code c one, AreForeign-lower_text s rest)

AreForeign-split_segments : (s : Text) → AreForeign s → All AreForeign (split_segments s)
unfolding split_segments
AreForeign-split_segments [] h = (tt, tt)
AreForeign-split_segments (c ∷ s) (one, rest) =
    split_step (split_segments s) (AreForeign-split_segments s rest)
  where
    split_step :
        (ws : List Text)
        → All AreForeign ws
        → All AreForeign (elim ws [
          | [] ↦ (c ∷ []) ∷ []
          | v ∷ vs ↦ if is_delimiter c then [] ∷ v ∷ vs else (c ∷ v) ∷ vs
        ])
    split_step [] h = ((one, tt), tt)
    split_step (v ∷ vs) (w, more) =
        if_ind (All AreForeign) (is_delimiter c) (λ e. (tt, (w, more))) (λ e. ((one, w), more))

AreForeign-strip : (ws : List Text) → All AreForeign ws → All AreForeign (map strip ws)
AreForeign-strip [] h = tt
AreForeign-strip (w ∷ ws) (one, rest) = (All-strip IsForeign w one, AreForeign-strip ws rest)

AreForeign-keep :
    (p : Text → Bool) (ws : List Text) → All AreForeign ws → All AreForeign (keep p ws)
AreForeign-keep p [] h = tt
AreForeign-keep p (w ∷ ws) (one, rest) =
    if_ind (All AreForeign) (p w) (λ e. (one, AreForeign-keep p ws rest))
      (λ e. AreForeign-keep p ws rest)

AreForeign-long_segments : (ws : List Text) → All AreForeign ws → All AreForeign (long_segments ws)
unfolding long_segments
AreForeign-long_segments ws h =
    if_ind (All AreForeign) (is_empty (keep (λ (s : Text). ltb 3 (length s)) ws))
      (λ e. AreForeign-keep (λ s. not (is_empty s)) ws h)
      (λ e. AreForeign-keep (λ s. ltb 3 (length s)) ws h)

AreForeign-join_segments : (ws : List Text) → All AreForeign ws → AreForeign (join_segments ws)
unfolding join_segments is_alnum
AreForeign-join_segments [] h = tt
AreForeign-join_segments (s ∷ []) (one, rest) = one
AreForeign-join_segments (s ∷ t ∷ ws) (one, rest) =
    All-append IsForeign s (b' ' ∷ join_segments (t ∷ ws)) one
      ((refl, refl, refl), AreForeign-join_segments (t ∷ ws) rest)

AreForeign-blank : AreForeign (b' ' ∷ [])
unfolding is_alnum
AreForeign-blank = ((refl, refl, refl), tt)

blank_space : is_space b' ' ≡ true
unfolding is_space
blank_space = refl

scrub_blank : (s : Text) → AreForeign s → All (λ c. is_space c ≡ true) (scrub s)
unfolding scrub
scrub_blank [] h = tt
scrub_blank (c ∷ s) (one, rest) = (ground (arith, blank_space, one.0), scrub_blank s rest)

lstrip_blank : (s : Text) → All (λ c. is_space c ≡ true) s → lstrip is_space s ≡ []
unfolding lstrip
lstrip_blank [] h = refl
lstrip_blank (c ∷ s) (one, rest) = ground (arith, lstrip_blank s rest)

strip_blank : (s : Text) → All (λ c. is_space c ≡ true) s → strip s ≡ []
unfolding strip rstrip
strip_blank s h = ap (rstrip is_space) (lstrip_blank s h)

module _ (sub : String → Text → Text)
    (sub-AreForeign : (p : String) (s : Text) → AreForeign s → AreForeign (sub p s)) where
  AreForeign-sub_all : (ps : List String) (s : Text) → AreForeign s → AreForeign (sub_all sub ps s)
  unfolding sub_all
  AreForeign-sub_all [] s h = h
  AreForeign-sub_all (p ∷ ps) s h = AreForeign-sub_all ps (sub p s) (sub-AreForeign p s h)

  AreForeign-content_segments : (s : Text) → AreForeign s → AreForeign (content_segments sub s)
  unfolding content_segments
  AreForeign-content_segments s h =
      let entities =
        AreForeign-sub_all entity_patterns (lower_text s) (AreForeign-lower_text s h) in
      let plain =
        AreForeign-sub_all boilerplate_patterns _
          (All-collapse IsForeign AreForeign-blank.0 _ entities) in
      AreForeign-join_segments _
        (AreForeign-long_segments _ (AreForeign-strip _ (AreForeign-split_segments _ plain)))

  -- A text without a letter or digit of ASCII, and without the two codes U+0130 and U+212A whose
  -- lower case has one, normalizes to nothing, as long as the regular expressions put no such
  -- letter, digit or code into a text that has none; so all such texts, whatever they say, have
  -- the content hash of the empty page.
  pub content_hash_foreign :
      (sha256 : Text → String) (s : Text)
      → AreForeign s
      → (normalize_content sub s ≡ []) × (content_hash sub sha256 s ≡ content_hash sub sha256 [])
  unfolding normalize_content content_hash
  content_hash_foreign sha256 [] h = (refl, refl)
  content_hash_foreign sha256 (c ∷ s) h =
      let nothing = strip_blank _ (
        All-collapse (λ x. is_space x ≡ true) blank_space _
          (scrub_blank _ (AreForeign-content_segments (c ∷ s) h))) in
      (nothing, ap sha256 nothing)
