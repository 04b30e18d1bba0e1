-- ===== src/GroqBatch/Results.antt =====
-- Reading a file of results (app/services/groq_batch.py).
use duka_scraper.Base.{◌≡◌, String, true, false, none, some, List, [], ◌∷◌, string_eq}
use duka_scraper.Base.Text.{Text, text_eq, codes, is_empty}
use duka_scraper.Fingerprint.{strip}
use duka_scraper.GroqBatch.Values.{Json, Elements, JsonLibrary, get}
use duka_scraper.GroqBatch.Lines.{is_line}
use duka_scraper.GroqBatch.{BatchResult, put}

-- What the service says of a request: the text of the first choice, the message of an error, or
-- no choice at all.
pub data Answer : Type 0 where
  answered : Text → Text → Answer
  failed : Text → Text → Answer
  silent : Text → Answer

-- A line of an output file, whatever other members it has: its id and, by the documented members,
-- the answer.
abbrev pub HasText : String → Json → Text → Type 0
HasText key v t = get (codes key) v ≡ some (Json.text t)

abbrev pub HasChoices : Json → Elements → Type 0
HasChoices v choices =
    (get (codes "error") v ≡ some Json.null)
    × (response : Json) × (body : Json) × (get (codes "response") v ≡ some response)
    × (get (codes "body") response ≡ some body)
    × (get (codes "choices") body ≡ some (Json.array choices))

abbrev pub IsAnswer : Json → Answer → Type 0
IsAnswer v (answered custom_id content) =
    HasText "custom_id" v custom_id
    × (choice : Json) × (others : Elements) × (said : Json) × HasChoices v
        (Elements.item choice others)
    × (get (codes "message") choice ≡ some said)
    × HasText "content" said content
IsAnswer v (failed custom_id message) =
    HasText "custom_id" v custom_id
    × (error : Json) × (get (codes "error") v ≡ some error)
    × HasText "message" error message
IsAnswer v (silent custom_id) = HasText "custom_id" v custom_id × HasChoices v Elements.end

-- What the program is to make of an answer.
abbrev pub result_of : Answer → BatchResult
result_of (answered custom_id content) = record { content = Json.text content; error = none }
result_of (failed custom_id message) = record { content = Json.null; error = some message }
result_of (silent custom_id) = record {
  content = Json.null;
  error = some (codes "batch result contained no choices");
}

abbrev pub id_of : Answer → Text
id_of (answered custom_id content) = custom_id
id_of (failed custom_id message) = custom_id
id_of (silent custom_id) = custom_id

-- The id is there, and an error says something.
abbrev pub IsUsable : Answer → Type 0
IsUsable (failed custom_id message) = (is_empty custom_id ≡ false) × (is_empty message ≡ false)
IsUsable a = is_empty (id_of a) ≡ false

-- By id, the last answer counting.
abbrev pub collected : List (Text × Answer) → List (Text × BatchResult) → List (Text × BatchResult)
collected [] results = results
collected ((line, a) ∷ more) results = collected more (put (id_of a) (result_of a) results)

module _ (J : JsonLibrary) where
  -- A line is one for `splitlines`, is not blank, and is read as an answer.
  abbrev pub IsReadable : Text × Answer → Type 0
  IsReadable (line, a) =
      (is_line line ≡ true)
      × (is_empty (strip line) ≡ false)
      × IsUsable a
      × (v : Json) × (J.loads line ≡ some v)
      × IsAnswer v a
