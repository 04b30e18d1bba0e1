-- ===== src/Fingerprint.antt =====
-- The content hash of a page (app/services/content_fingerprint_service.py): `normalize_content` and
-- `content_hash`. `re.sub` with " " and SHA-256 are not part of the program: they are arguments.
pub mod Alphabet
pub mod Foreign
mod Tests
use duka_scraper.Base.{
  ℕ, ◌+◌, String, Bool, true, false, ◌&&◌, ◌||◌, not, List, [], ◌∷◌, ◌++◌, map, keep, any, leb, ltb,
  nat_beq, length, if◌then◌else◌, contains, nat_eq,
}
use duka_scraper.Base.Text.{Text, codes, lower_code, lstrip, rstrip, is_empty}

-- What `str.strip` and `\s` take for white space.
unfoldable pub is_space : ℕ → Bool
is_space c =
    (leb 9 c && leb c 13)
    || (leb 28 c && leb c 32)
    || contains (133 ∷ 160 ∷ 5760 ∷ 8232 ∷ 8233 ∷ 8239 ∷ 8287 ∷ 12288 ∷ []) c
    || (leb 8192 c && leb c 8202)

-- `[a-z0-9]`
unfoldable pub is_alnum : ℕ → Bool
is_alnum c = (leb b'a' c && leb c b'z') || (leb b'0' c && leb c b'9')

-- `text.lower()`. Two codes outside ASCII have letters of ASCII in their lower case, the dotted
-- capital I, whose dot is then a code of its own, and the sign of Kelvin. The other letters
-- outside ASCII are left as they are, which only the arguments can tell: `scrub` blanks each of
-- them, as it does its lower case, which is one code too.
unfoldable pub lower_codes : ℕ → Text
lower_codes c =
    if nat_beq c 304
    then b'i' ∷ 775 ∷ []
    else if nat_beq c 8490
    then b'k' ∷ []
    else lower_code c ∷ []

unfoldable pub lower_text : Text → Text
unfolding lower_codes
lower_text [] = []
lower_text (c ∷ s) = lower_codes c ++ lower_text s

unfoldable pub strip : Text → Text
strip s = rstrip is_space (lstrip is_space s)

abbrev pub starts_space : Text → Bool
starts_space [] = false
starts_space (c ∷ s) = is_space c

-- `re.sub(r"\s+", " ", text)`: the last code of a run of white space becomes the space.
unfoldable pub collapse : Text → Text
collapse [] = []
collapse (c ∷ s) =
    let rest = collapse s in
    if is_space c then (if starts_space s then rest else b' ' ∷ rest) else c ∷ rest

-- `[|•–—/\\]`
unfoldable pub is_delimiter : ℕ → Bool
is_delimiter c = contains (b'|' ∷ 8226 ∷ 8211 ∷ 8212 ∷ b'/' ∷ b'\\' ∷ []) c

-- `re.split(r"[|•–—/\\]", text)`
unfoldable pub split_segments : Text → List Text
unfolding is_delimiter
split_segments [] = [] ∷ []
split_segments (c ∷ s) = elim (split_segments s) [
  | [] ↦ (c ∷ []) ∷ []
  | w ∷ ws ↦ if is_delimiter c then [] ∷ w ∷ ws else (c ∷ w) ∷ ws
]

-- The segments of more than three codes, or else those that are not empty.
unfoldable pub long_segments : List Text → List Text
long_segments raw =
    let long = keep (λ (s : Text). ltb 3 (length s)) raw in
    if is_empty long then keep (λ (s : Text). not (is_empty s)) raw else long

-- `" ".join(segments)`
unfoldable pub join_segments : List Text → Text
join_segments [] = []
join_segments (s ∷ []) = s
join_segments (s ∷ t ∷ rest) = s ++ b' ' ∷ join_segments (t ∷ rest)

-- `re.sub(r"[^a-z0-9\s]", " ", text)`
unfoldable pub scrub : Text → Text
scrub s = map (λ c. if is_alnum c || is_space c then c else b' ') s

unfoldable pub boilerplate_patterns : List String
boilerplate_patterns =
    "cookie[s]?\\s*(?:policy|notice|consent|banner|accept|decline)"
    ∷ "privacy\\s*(?:policy|notice|statement)" ∷ "terms\\s*(?:of\\s*(?:use|service|conditions))?"
    ∷ "©\\s*\\d{4}" ∷ "all\\s*rights\\s*reserved" ∷ "powered\\s*by\\s*\\w+"
    ∷ "sign\\s*(?:up|in|out|log)" ∷ "subscribe\\s*(?:to|for|newsletter)"
    ∷ "follow\\s*(?:us|me|them)\\s*(?:on|at)" ∷ "share\\s*(?:this|on|via)"
    ∷ "(?:facebook|twitter|instagram|linkedin|youtube|tiktok)\\s*(?:follow|share|like)"
    ∷ "skip\\s*to\\s*(?:content|main|navigation)"
    ∷ "(?:home|about|contact|faq|help|support)\\s*(?:\\||•|-)" ∷ []

unfoldable pub entity_patterns : List String
entity_patterns = "&[a-z]+;" ∷ "&#\\d+;" ∷ []

-- `sub pattern text` is `re.sub(pattern, " ", text)`, with the flags of the pattern.
module _ (sub : String → Text → Text) where
  unfoldable pub sub_all : List String → Text → Text
  sub_all [] s = s
  sub_all (p ∷ ps) s = sub_all ps (sub p s)

  -- What is left of the text before the special characters go.
  unfoldable pub content_segments : Text → Text
  unfolding sub_all lower_text
  content_segments s =
      let plain =
        sub_all boilerplate_patterns (collapse (sub_all entity_patterns (lower_text s))) in
      join_segments (long_segments (map strip (split_segments plain)))

  unfoldable pub normalize_content : Text → Text
  unfolding content_segments
  normalize_content [] = []
  normalize_content (c ∷ s) = strip (collapse (scrub (content_segments (c ∷ s))))

  -- `sha256` is the digest of the text in UTF-8.
  unfoldable pub content_hash : (Text → String) → Text → String
  unfolding normalize_content
  content_hash sha256 s = sha256 (normalize_content s)
