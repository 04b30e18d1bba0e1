-- ===== src/GroqBatch.antt =====
-- Batches of requests as files of JSON lines, and the files of their results
-- (app/services/groq_batch.py). An exception is `none`; the calls over the network are left out.
pub mod Values
pub mod Lines
pub mod Files
pub mod Results
mod Tests
use duka_scraper.Base.{
  ℕ, ◌*◌, String, Bool, true, false, not, ◌&&◌, ◌||◌, Option, none, some, List, [], ◌∷◌, ◌++◌, map,
  length, ltb, ◌==◌, string_eq, contains, if◌then◌else◌,
}
use duka_scraper.Base.Text.{Text, text_eq, codes, is_empty}
use duka_scraper.Fingerprint.{strip}
use duka_scraper.GroqBatch.Values.{
  Json, Elements, Members, JsonLibrary, get, set, at, or_empty, is_true, first_of, text_of,
}
use duka_scraper.GroqBatch.Lines.{splitlines, join_lines}

abbrev pub max_batch_lines : ℕ
max_batch_lines = 50000

abbrev pub max_batch_bytes : ℕ
max_batch_bytes = 200 * 1024 * 1024

-- The statuses in which a batch has ended without results.
abbrev pub batch_failed_states : List String
batch_failed_states = "failed" ∷ "expired" ∷ "cancelled" ∷ []

pub record BatchRequest : Type 0 where
  pub custom_id : Text
  pub system_prompt : Text
  pub user_prompt : Text

-- `none` for an exception
infixl 10 ◌>>=◌
abbrev pub ◌>>=◌ {ℓ κ} : {A : Type ℓ} {B : Type κ} → Option A → (A → Option B) → Option B
none >>= f = none
some a >>= f = f a

abbrev pub message : String → Text → Json
message role content = Json.object (
    Members.member (codes "role") (Json.text (codes role))
      (Members.member (codes "content") (Json.text content) Members.nil))

abbrev pub messages : BatchRequest → Elements
messages r =
    let user = Elements.item (message "user" r.user_prompt) Elements.end in
    if is_empty r.system_prompt then user else Elements.item (message "system" r.system_prompt) user

-- A request with the members of its body.
abbrev pub request_json : BatchRequest → (Members → Members) → Json
request_json r more = Json.object (
    Members.member (codes "custom_id") (Json.text r.custom_id) (
      Members.member (codes "method") (Json.text (codes "POST")) (
        Members.member (codes "url") (Json.text (codes "/v1/chat/completions")) (
          Members.member (codes "body")
            (Json.object
              (Members.member (codes "messages") (Json.array (messages r)) (more Members.nil)))
            Members.nil))))

-- The content, `null` for none, and the error of one result.
pub record BatchResult : Type 0 where
  pub content : Json
  pub error : Option Text

-- `results[key] = value`
abbrev pub put : Text → BatchResult → List (Text × BatchResult) → List (Text × BatchResult)
put key r [] = (key, r) ∷ []
put key r ((k, x) ∷ results) =
    let rest = put key r results in if k == key then (k, r) ∷ results else (k, x) ∷ rest

module _ (J : JsonLibrary) where
  abbrev pub build_line : BatchRequest → Text
  build_line r = J.dumps (request_json r (λ ms. ms))

  unfoldable pub build_batch_lines : List BatchRequest → List Text
  build_batch_lines requests = map build_line requests

  -- `submit` writes the model into the body of a line.
  unfoldable pub stamp_model : Text → Text → Option Text
  unfolding at set
  stamp_model model line = do
    request ← J.loads line
    body ← at (codes "body") request
    stamped ← set (codes "model") (Json.text model) body
    request' ← set (codes "body") stamped request
    some (J.dumps request')

  unfoldable pub stamp_models : Text → List Text → Option (List Text)
  unfolding stamp_model
  stamp_models model [] = some []
  stamp_models model (line ∷ lines) = do
    first ← stamp_model model line
    rest ← stamp_models model lines
    some (first ∷ rest)

  -- The error of a result, if it is true: the message of a dictionary or the dictionary itself.
  unfoldable pub error_value : Json → Option Json
  unfolding get is_true
  error_value (Json.object ms) = do
    told ← get (codes "message") (Json.object ms)
    some (if is_true J told then told else Json.text (J.dumps_ascii (Json.object ms)))
  error_value v = some v

  -- What a result without an error says.
  unfoldable pub content_of : Json → Option BatchResult
  unfolding get or_empty is_true first_of
  content_of result = do
    response ← get (codes "response") result
    body ← get (codes "body") (or_empty J response)
    choices ← get (codes "choices") (or_empty J body)
    if is_true J choices
        then (do
          choice ← first_of choices
          said ← get (codes "message") choice
          content ← get (codes "content") (or_empty J said)
          some (record { content = content; error = none }))
        else some (record {
          content = Json.null;
          error = some (codes "batch result contained no choices");
        })

  -- An id that is no text is kept as its text.
  unfoldable pub parse_result_line : Text → Option (Text × BatchResult)
  unfolding get error_value content_of is_true text_of
  parse_result_line line = do
    result ← J.loads line
    id ← get (codes "custom_id") result
    let custom_id = if is_true J id then text_of J id else []
    told ← get (codes "error") result
    error ← error_value told
    if is_true J error
        then some (custom_id, record { content = Json.null; error = some (text_of J error) })
        else (do found ← content_of result; some (custom_id, found))

  unfoldable pub parse_lines :
      List Text → List (Text × BatchResult) → Option (List (Text × BatchResult))
  unfolding parse_result_line strip
  parse_lines [] results = some results
  parse_lines (line ∷ lines) results =
      elim (is_empty (strip line)) as (λ _. Option (List (Text × BatchResult))) [
        | true ↦ parse_lines lines results
        | false ↦ (do
          (custom_id, r) ← parse_result_line line
          parse_lines lines (if is_empty custom_id then results else put custom_id r results))
      ]

  module _ (encode : Text → List ℕ) (decode : List ℕ → Text) where
    -- `none` is the refusal of an empty or too large file.
    unfoldable pub encode_batch_file : List Text → Option (List ℕ)
    encode_batch_file lines =
        if is_empty lines
          || ltb max_batch_lines (length lines)
          || ltb max_batch_bytes (length (encode (join_lines lines)))
        then none
        else some (encode (join_lines lines))

    -- The file that `submit` uploads; no model is an error.
    unfoldable pub submission : Text → List Text → Option (List ℕ)
    unfolding stamp_models encode_batch_file
    submission model lines =
        if is_empty model
        then none
        else do stamped ← stamp_models model lines; encode_batch_file stamped

    unfoldable pub parse_result_file : List ℕ → Option (List (Text × BatchResult))
    unfolding parse_lines splitlines
    parse_result_file content = parse_lines (splitlines (decode content)) []

    -- `collect`, given the status and the answers of the service: no results while the batch is
    -- still on its way.
    unfoldable pub collect : String → Option (List ℕ) → Option (List (Text × BatchResult))
    unfolding parse_result_file
    collect status output =
        if status == "completed"
        then (elim output as (λ _. Option (List (Text × BatchResult))) [
          | none ↦ none
          | some content ↦ parse_result_file content
        ])
        else if contains batch_failed_states status
        then none
        else some []
