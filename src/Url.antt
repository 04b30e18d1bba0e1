-- ===== src/Url.antt =====
-- `urllib.parse.urlparse` and the `hostname` of its result, as the program uses them: over the
-- code points of a text, `none` for the `ValueError`. Left out are the checks of the library that
-- only refuse: a bracketed host is not read as an IPv6 address, and a host that is not ASCII is
-- not normalised.
mod Tests
use duka_scraper.Base.{
  ℕ, ◌+◌, ◌-◌, ◌*◌, Bool, true, false, not, ◌&&◌, ◌||◌, Option, none, some, List, [], ◌∷◌, ◌++◌,
  leb, all, any, keep, drop, if◌then◌else◌, ◌==◌, contains,
}
use mathlib.Core.List.{flat_map}
use duka_scraper.Base.Text.{
  Text, codes, text_eq, lower, starts_with, cut, rcut, lstrip, is_code, split_on, is_empty,
}

pub record Url : Type 0 where
  pub scheme : Text
  pub netloc : Text
  pub path : Text
  pub query : Text

unfoldable pub is_alpha : ℕ → Bool
is_alpha c = leb b'A' c && leb c b'Z' || leb b'a' c && leb c b'z'

unfoldable pub is_digit : ℕ → Bool
is_digit c = leb b'0' c && leb c b'9'

-- The letters, the digits and `+-.`.
unfoldable pub is_scheme_code : ℕ → Bool
unfolding is_alpha is_digit
is_scheme_code c = is_alpha c || is_digit c || is_code b'+' c || is_code b'-' c || is_code b'.' c

unfoldable pub starts_alpha : Text → Bool
unfolding is_alpha
starts_alpha [] = false
starts_alpha (c ∷ s) = is_alpha c

-- The scheme, lowered, and what follows its colon.
unfoldable pub split_scheme : Text → Text × Text
unfolding starts_alpha is_scheme_code
split_scheme url = elim (cut b':' url) [
  | none ↦ ([], url)
  | some (before, after) ↦
      if starts_alpha before && all is_scheme_code before then (lower before, after) else ([], url)
]

unfoldable pub is_delimiter : ℕ → Bool
is_delimiter c = is_code b'/' c || is_code b'?' c || is_code b'#' c

-- `_splitnetloc`: up to the first of `/?#`.
unfoldable pub split_netloc : Text → Text × Text
unfolding is_delimiter
split_netloc [] = ([], [])
split_netloc (c ∷ s) =
    let more = split_netloc s in if is_delimiter c then ([], c ∷ s) else (c ∷ more.0, more.1)

abbrev before_cut : ℕ → Text → Text
before_cut c s = elim (cut c s) [ none ↦ s | some (x, y) ↦ x ]

abbrev after_cut : ℕ → Text → Text
after_cut c s = elim (cut c s) [ none ↦ [] | some (x, y) ↦ y ]

abbrev uses_params : List Text
uses_params =
    []
    ∷ codes "ftp"
    ∷ codes "hdl"
    ∷ codes "prospero"
    ∷ codes "http"
    ∷ codes "https"
    ∷ codes "shttp"
    ∷ codes "rtsp"
    ∷ codes "rtspu"
    ∷ codes "sip"
    ∷ codes "sips"
    ∷ codes "mms"
    ∷ codes "sftp"
    ∷ codes "tel"
    ∷ []

-- `_splitparams`, without the parameters themselves: they follow a `;` of the last segment.
unfoldable pub drop_params : Text → Text
drop_params path = elim (rcut b'/' path) [
  | none ↦ before_cut b';' path
  | some (front, last) ↦ front ++ b'/' ∷ before_cut b';' last
]

-- What stands left of the path's query and fragment.
unfoldable pub finish_url : Text → Text → Text → Url
unfolding drop_params
finish_url scheme netloc rest =
    let shown = before_cut b'#' rest in
    let path = before_cut b'?' shown in
    record {
      scheme = scheme;
      netloc = netloc;
      path = if contains uses_params scheme then drop_params path else path;
      query = after_cut b'?' shown;
    }

-- One bracket without the other.
unfoldable pub has_odd_bracket : Text → Bool
has_odd_bracket netloc =
    let opened = any (is_code b'[') netloc in
    let closed = any (is_code b']') netloc in opened && not closed || closed && not opened

-- Leading controls and spaces go, and tabs and line ends wherever they stand.
unfoldable pub clean_url : Text → Text
clean_url url =
    keep (λ c. not (is_code 9 c || is_code 10 c || is_code 13 c)) (lstrip (λ c. leb c 32) url)

unfoldable pub urlparse : Text → Option Url
unfolding clean_url split_scheme split_netloc finish_url has_odd_bracket
urlparse url =
    let (scheme, rest) = split_scheme (clean_url url) in
    if starts_with rest (b'/' ∷ b'/' ∷ [])
    then (let (netloc, path) = split_netloc (drop 2 rest) in
        if has_odd_bracket netloc then none else some (finish_url scheme netloc path))
    else some (finish_url scheme [] rest)

-- What follows the last `@` of the network location.
unfoldable pub hostinfo : Text → Text
hostinfo netloc = elim (rcut b'@' netloc) [ none ↦ netloc | some (_, host) ↦ host ]

-- `(parsed.hostname or "")`: lowered up to the zone of an address.
unfoldable pub hostname : Url → Text
unfolding hostinfo
hostname u =
    let info = hostinfo u.netloc in
    let host : Text = elim (cut b'[' info) [
      | none ↦ before_cut b':' info
      | some (_, bracketed) ↦ before_cut b']' bracketed
    ] in
    elim (cut b'%' host) [ none ↦ lower host | some (x, zone) ↦ lower x ++ b'%' ∷ zone ]

unfoldable pub hex_value : ℕ → Option ℕ
hex_value c =
    if leb b'0' c && leb c b'9'
    then some (c - b'0')
    else if leb b'a' c && leb c b'f'
    then some (c - b'a' + 10)
    else if leb b'A' c && leb c b'F'
    then some (c - b'A' + 10)
    else none

abbrev decoded : Option ℕ → Option ℕ → Option ℕ
decoded (some h) (some l) = some (16 * h + l)
decoded _ _ = none

-- `unquote` of a name: `+` is a space, `%` and two digits are a byte. Bytes above 127, which the
-- library decodes together, stay as they are.
unfoldable pub unquote_plus : Text → Text
unfolding hex_value
unquote_plus [] = []
unquote_plus (c ∷ []) = (if is_code b'+' c then b' ' else c) ∷ []
unquote_plus (c ∷ d ∷ []) = (if is_code b'+' c then b' ' else c) ∷ unquote_plus (d ∷ [])
unquote_plus (c ∷ d ∷ e ∷ s) =
    let byte = unquote_plus s in
    let plain = unquote_plus (d ∷ e ∷ s) in
    elim (if is_code b'%' c then decoded (hex_value d) (hex_value e) else none) [
      | some b ↦ b ∷ byte
      | none ↦ (if is_code b'+' c then b' ' else c) ∷ plain
    ]

-- The keys of `parse_qs`: the names of the pairs whose value is not empty.
unfoldable pub query_key : Text → List Text
unfolding unquote_plus
query_key pair = elim (cut b'=' pair) [
  | none ↦ []
  | some (name, value) ↦ if is_empty value then [] else unquote_plus name ∷ []
]

unfoldable pub query_keys : Text → List Text
unfolding query_key flat_map
query_keys query = flat_map query_key (split_on b'&' query)
