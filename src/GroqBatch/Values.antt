-- ===== src/GroqBatch/Values.antt =====
-- Values of JSON as `json.loads` gives them, and what the program asks of them. A number is its
-- literal.
use duka_scraper.Base.{Bool, true, false, not, Option, none, some, ◌==◌, if◌then◌else◌}
use duka_scraper.Base.Text.{Text, text_eq, is_empty}

mutual
  pub data Json : Type 0 where
    null : Json
    boolean : Bool → Json
    number : Text → Json
    text : Text → Json
    array : Elements → Json
    object : Members → Json

  pub data Elements : Type 0 where
    end : Elements
    item : Json → Elements → Elements

  pub data Members : Type 0 where
    nil : Members
    member : Text → Json → Members → Members

-- `json.loads`, `json.dumps` without and with escapes for what is not ASCII, `str` of a value that is no text, and which literals are zero.
pub record JsonLibrary : Type 0 where
  pub loads : Text → Option Json
  pub dumps : Json → Text
  pub dumps_ascii : Json → Text
  pub show : Json → Text
  pub is_zero : Text → Bool

-- `d.get(key)`, with `null` for a missing key
abbrev pub lookup : Text → Members → Json
lookup key Members.nil = Json.null
lookup key (Members.member k v ms) = let rest = lookup key ms in if k == key then v else rest

-- A value that is no dictionary has no `get`.
unfoldable pub get : Text → Json → Option Json
get key (Json.object ms) = some (lookup key ms)
get key _ = none

abbrev pub insert : Text → Json → Members → Members
insert key v Members.nil = Members.member key v Members.nil
insert key v (Members.member k w ms) =
    let rest = insert key v ms in
    if k == key then Members.member k v ms else Members.member k w rest

-- `d[key] = v`
unfoldable pub set : Text → Json → Json → Option Json
set key v (Json.object ms) = some (Json.object (insert key v ms))
set key v _ = none

-- `d[key]`
abbrev pub has_key : Text → Members → Bool
has_key key Members.nil = false
has_key key (Members.member k v ms) = let rest = has_key key ms in if k == key then true else rest

unfoldable pub at : Text → Json → Option Json
at key (Json.object ms) = if has_key key ms then some (lookup key ms) else none
at key _ = none

module _ (J : JsonLibrary) where
  -- `bool(value)`
  unfoldable pub is_true : Json → Bool
  is_true Json.null = false
  is_true (Json.boolean b) = b
  is_true (Json.number literal) = not (J.is_zero literal)
  is_true (Json.text t) = not (is_empty t)
  is_true (Json.array Elements.end) = false
  is_true (Json.array (Elements.item v vs)) = true
  is_true (Json.object Members.nil) = false
  is_true (Json.object (Members.member k v ms)) = true

  -- `value or {}`, and `value or []` where only its truth and its first item are asked for
  unfoldable pub or_empty : Json → Json
  unfolding is_true
  or_empty v = if is_true v then v else Json.object Members.nil

  -- `str(value)`
  unfoldable pub text_of : Json → Text
  text_of (Json.text t) = t
  text_of v = J.show v

-- `value[0]`
unfoldable pub first_of : Json → Option Json
first_of (Json.array (Elements.item v vs)) = some v
first_of _ = none
