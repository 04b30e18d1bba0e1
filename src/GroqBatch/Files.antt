-- ===== src/GroqBatch/Files.antt =====
-- Files of JSON lines there and back (app/services/groq_batch.py).
use duka_scraper.Base.{
  ℕ, ◌≡◌, refl, ap, String, Bool, true, not, ◌||◌, none, some, List, [], ◌∷◌, ◌++◌, map, all, arith,
  length, ltb, nat_beq, All, if◌then◌else◌,
}
use duka_scraper.Base.Text.{Text, text_eq, text_beq, codes, is_empty}
use duka_scraper.GroqBatch.Values.{Json, Elements, Members, JsonLibrary}
use duka_scraper.GroqBatch.Lines.{join_lines}
use duka_scraper.GroqBatch.{
  BatchRequest, messages, request_json, build_line, build_batch_lines, stamp_model, stamp_models,
  submission, encode_batch_file,
}

-- The lines that end with LF, as a reader of JSON lines takes them.
unfoldable pub newline_lines : Text → List Text
newline_lines [] = []
newline_lines (c ∷ s) = elim (newline_lines s) as (λ _. List Text) [
  | [] ↦ if nat_beq c 10 then [] ∷ [] else (c ∷ []) ∷ []
  | l ∷ ls ↦ if nat_beq c 10 then [] ∷ l ∷ ls else (c ∷ l) ∷ ls
]

abbrev pub has_no_newline : Text → Bool
has_no_newline = all (λ c. not (nat_beq c 10))

newline_lines-append :
    (l s : Text) → has_no_newline l ≡ true → newline_lines (l ++ 10 ∷ s) ≡ l ∷ newline_lines s
unfolding newline_lines
newline_lines-append [] s h = ground arith
newline_lines-append (c ∷ l) s h = ground (arith, newline_lines-append l s)

newline_lines-join_lines :
    (ls : List Text) → all has_no_newline ls ≡ true → newline_lines (join_lines ls) ≡ ls
unfolding newline_lines
newline_lines-join_lines [] h = refl
newline_lines-join_lines (l ∷ ls) h =
    ground (arith, newline_lines-append l (join_lines ls), newline_lines-join_lines ls)

-- A request as the service documents it, with the further members of its body: the id, the call,
-- and the messages, of which the first is the system prompt if there is one.
abbrev pub chat_message : String → Text → Json
chat_message role content = Json.object (
    Members.member (codes "role") (Json.text (codes role))
      (Members.member (codes "content") (Json.text content) Members.nil))

abbrev pub chat_messages : Text → Text → Elements
chat_messages [] user_prompt = Elements.item (chat_message "user" user_prompt) Elements.end
chat_messages (c ∷ system_prompt) user_prompt =
    Elements.item (chat_message "system" (c ∷ system_prompt))
      (Elements.item (chat_message "user" user_prompt) Elements.end)

abbrev pub chat_json : BatchRequest → Members → Json
chat_json r more = Json.object (
    Members.member (codes "custom_id") (Json.text r.custom_id) (
      Members.member (codes "method") (Json.text (codes "POST")) (
        Members.member (codes "url") (Json.text (codes "/v1/chat/completions")) (
          Members.member (codes "body")
            (Json.object (
              Members.member (codes "messages")
                (Json.array (chat_messages r.system_prompt r.user_prompt)) more))
            Members.nil))))

abbrev pub plain_json : BatchRequest → Json
plain_json r = chat_json r Members.nil

-- The request with its model, as the service is to read it.
abbrev pub sent_json : Text → BatchRequest → Json
sent_json model r = chat_json r (Members.member (codes "model") (Json.text model) Members.nil)

messages_of_prompts :
    (custom_id system_prompt user_prompt : Text)
    → messages
        (record { custom_id = custom_id; system_prompt = system_prompt; user_prompt = user_prompt })
      ≡ chat_messages system_prompt user_prompt
messages_of_prompts custom_id [] user_prompt = refl
messages_of_prompts custom_id (c ∷ system_prompt) user_prompt = refl

messages-chat_messages :
    (r : BatchRequest) → messages r ≡ chat_messages r.system_prompt r.user_prompt
messages-chat_messages r = messages_of_prompts r.custom_id r.system_prompt r.user_prompt

request_json-plain_json : (r : BatchRequest) → request_json r (λ ms. ms) ≡ plain_json r
request_json-plain_json r = rw (messages-chat_messages r) refl

module _ (J : JsonLibrary) where
  -- What is printed is on one line, and read back as it was.
  abbrev pub Survives : Json → Type 0
  Survives v = (J.loads (J.dumps v) ≡ some v) × (has_no_newline (J.dumps v) ≡ true)

  -- So are a request and the request with its model.
  abbrev pub IsPrintable : Text → BatchRequest → Type 0
  IsPrintable model r = Survives (plain_json r) × Survives (sent_json model r)

  abbrev pub sent_line : Text → BatchRequest → Text
  sent_line model r = J.dumps (sent_json model r)

  stamp-build_line :
      (model : Text) (r : BatchRequest)
      → J.loads (J.dumps (plain_json r)) ≡ some (plain_json r)
      → stamp_model J model (build_line J r) ≡ some (sent_line model r)
  unfolding stamp_model text_beq
  stamp-build_line model r law = rw (ap J.dumps (request_json-plain_json r), law) refl

  stamp-build_lines :
      (model : Text) (rs : List BatchRequest)
      → All (IsPrintable model) rs
      → stamp_models J model (build_batch_lines J rs) ≡ some (map (sent_line model) rs)
  unfolding stamp_models build_batch_lines
  stamp-build_lines model [] laws = refl
  stamp-build_lines model (r ∷ rs) (((law, plain), sent), laws) =
      rw (stamp-build_line model r law, stamp-build_lines model rs laws) refl

  sent_lines_plain :
      (model : Text) (rs : List BatchRequest)
      → All (IsPrintable model) rs
      → all has_no_newline (map (sent_line model) rs) ≡ true
  sent_lines_plain model [] laws = refl
  sent_lines_plain model (r ∷ rs) ((built, (law, plain)), laws) =
      ground (arith, plain, sent_lines_plain model rs laws)

  loads-sent_lines :
      (model : Text) (rs : List BatchRequest)
      → All (IsPrintable model) rs
      → map J.loads (map (sent_line model) rs) ≡ map (λ r. some (sent_json model r)) rs
  loads-sent_lines model [] laws = refl
  loads-sent_lines model (r ∷ rs) ((built, (law, plain)), laws) =
      rw (law, loads-sent_lines model rs laws) refl

  is_empty-map :
      (f : BatchRequest → Text) (rs : List BatchRequest) → is_empty (map f rs) ≡ is_empty rs
  is_empty-map f [] = refl
  is_empty-map f (r ∷ rs) = refl

  length-map : (f : BatchRequest → Text) (rs : List BatchRequest) → length (map f rs) ≡ length rs
  length-map f [] = refl
  length-map f (r ∷ rs) = ground (arith, length-map f rs)

  -- A batch of requests is sent as one file, unless the model is missing, there is no request or
  -- more than 50000, or the file has more than 200 MB; and a reader of JSON lines finds in the file
  -- the requests in their order, each with its id, its messages and the model. Each request is
  -- taken to be printed on one line and to be read back as it was, and UTF-8 to be decoded as it
  -- was encoded.
  pub submission_round_trip :
      (encode : Text → List ℕ) (decode : List ℕ → Text) (model : Text) (rs : List BatchRequest)
      → ((s : Text) → decode (encode s) ≡ s)
      → All (IsPrintable model) rs
      → let file = encode (join_lines (map (sent_line model) rs)) in
        (submission J encode decode model (build_batch_lines J rs) ≡ (
          if is_empty model || is_empty rs || ltb 50000 (length rs) || ltb 209715200 (length file)
          then none
          else some file))
        × (map J.loads (newline_lines (decode file)) ≡ map (λ r. some (sent_json model r)) rs)
  unfolding submission encode_batch_file
  submission_round_trip encode decode model rs utf8 laws = (
    rw (stamp-build_lines model rs laws)
        (ground (arith, is_empty-map (sent_line model) rs, length-map (sent_line model) rs)),
    rw (utf8, newline_lines-join_lines (map (sent_line model) rs) (sent_lines_plain model rs laws))
        (loads-sent_lines model rs laws),
  )
