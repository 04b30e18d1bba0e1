-- ===== src/GroqBatch/Tests.antt =====
-- One request and its answer, and the theorems on them.
use duka_scraper.Base.{
  ◌≡◌, refl, false, none, some, String, [], ◌∷◌, ◌++◌, map, ◌==◌, if◌then◌else◌,
}
use duka_scraper.Base.Text.{Text, text_eq, text_beq, codes}
use duka_scraper.GroqBatch.Values.{Json, Elements, Members, JsonLibrary, has_key, lookup}
use duka_scraper.GroqBatch.{BatchRequest, build_batch_lines, submission}
use duka_scraper.GroqBatch.Files.{plain_json, sent_json, newline_lines, submission_round_trip}
use duka_scraper.GroqBatch.Results.{Answer}

abbrev request : BatchRequest
request = record {
  custom_id = codes "item-1";
  system_prompt = codes "You label texts.";
  user_prompt = codes "hello";
}

abbrev answer : Answer
answer = Answer.answered (codes "item-1") (codes "neutral")

abbrev one_member : String → Json → Json
one_member key v = Json.object (Members.member (codes key) v Members.nil)

abbrev choice_of : String → Json
choice_of content = one_member "message" (
    Json.object (
      Members.member (codes "role") (Json.text (codes "assistant"))
        (Members.member (codes "content") (Json.text (codes content)) Members.nil)))

-- A line with two choices and the further members that the service sends.
abbrev answer_json : Json
answer_json = Json.object (
    Members.member (codes "id") (Json.text (codes "batch_req_1")) (
      Members.member (codes "custom_id") (Json.text (codes "item-1")) (
        Members.member (codes "response")
          (Json.object (
            Members.member (codes "status_code") (Json.number (codes "200")) (
              Members.member (codes "body")
                (one_member "choices" (
                  Json.array (
                    Elements.item (choice_of "neutral")
                      (Elements.item (choice_of "other") Elements.end))))
                Members.nil)))
          (Members.member (codes "error") Json.null Members.nil))))

-- The three values that occur have one letter each.
abbrev letter_of_body : Json → Text
letter_of_body (Json.object ms) = if has_key (codes "model") ms then codes "m" else codes "r"
letter_of_body _ = codes "a"

abbrev letter : Json → Text
letter (Json.object ms) = letter_of_body (lookup (codes "body") ms)
letter _ = []

abbrev letters : JsonLibrary
letters = record {
  loads = λ t.
      if t == codes "r"
      then some (plain_json request)
      else if t == codes "m"
      then some (sent_json (codes "llama") request)
      else if t == codes "a"
      then some answer_json
      else none;
  dumps = letter;
  dumps_ascii = letter;
  show = λ v. [];
  is_zero = λ t. false;
}

submission_round_trip_example :
    (submission letters (λ s. s) (λ s. s) (codes "llama") (build_batch_lines letters (request ∷ []))
      ≡ some (codes "m" ++ 10 ∷ []))
    × (map letters.loads (newline_lines (codes "m" ++ 10 ∷ []))
        ≡ some (sent_json (codes "llama") request) ∷ [])
unfolding text_beq
submission_round_trip_example =
    submission_round_trip letters (λ s. s) (λ s. s) (codes "llama") (request ∷ []) (λ s. refl)
      (((refl, refl), (refl, refl)), tt)
