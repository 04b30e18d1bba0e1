-- ===== src/Assignment/Escalation.antt =====
-- When a page that was fetched goes on to the deep worker: `should_escalate_to_deep` and
-- `check_escalation` (app/common/constants/worker_assignment.py). `re.search` of a compiled pattern
-- is an argument, and so is `f"http_{status_code}"`.
use duka_scraper.Base.{
  ℕ, nat_eq, ◌≡◌, ◌≢◌, ◌↔◌, String, string_eq, Bool, true, false, Option, none, some, List, [], ◌∷◌,
  any, not, arith, eq_iff, contains, ◌==◌, if◌then◌else◌, inl, inr, Option-cases,
}
use duka_scraper.Base.Text.{Text, is_empty}
use duka_scraper.Assignment.Constants.{escalation_status_codes}

unfoldable pub auth_patterns : List String
auth_patterns =
    "<form[^>]*(?:method\\s*=\\s*[\"\\']?post[\"\\']?)[^>]*>.*?<input[^>]*type\\s*=\\s*[\"\\']?password[\"\\']?"
    ∷ "<form[\\s>].*?<input[^>]*type\\s*=\\s*[\"\\']?password[\"\\']?.*?</form>"
    ∷ "<(?:form|input|button|a)[^>]*(?:register|signup|sign-up|create-account)[^>]*>"
    ∷ "checking\\s+your\\s+browser.*(?:cloudflare|captcha|challenge)"
    ∷ "(?:verify\\s+you\\s+are\\s+human|attention\\s+required).*?(?:cloudflare|captcha|challenge)"
    ∷ "<script[^>]*src\\s*=\\s*[\"\\']?(?:https?://)?[^\"\\'>]*(?:cf-chl|challenge-platform|hcaptcha|recaptcha)"
    ∷ "<iframe[^>]*src\\s*=\\s*[\"\\']?(?:https?://)?[^\"\\'>]*(?:turnstile|challenge|hcaptcha|recaptcha)"
    ∷ "recaptcha/api\\.js" ∷ "(?:perimeterx|px-captcha|_px3|_px2)"
    ∷ "datadome[^<]*(?:\\.js|\\.min\\.js)" ∷ "(?:akamai[^<]*bot|bm-verify|bm-notice)"
    ∷ "(?:incapsula|imperva)"
    ∷ "<script[^>]*src\\s*=\\s*[\"\\']?(?:https?://)?[^\"\\'>]*(?:cf-chl|challenge-platform)" ∷ []

unfoldable pub empty_html_patterns : List String
empty_html_patterns =
    "^<html>(\\s*<head>\\s*</head>)?\\s*<body>\\s*</body>\\s*</html>$"
    ∷ "<div\\s+id=[\"\\']?(root|app|__next)[\"\\']?\\s*>\\s*</div>" ∷ []

-- `reason_map`
unfoldable pub reason_of : ℕ → Option String
reason_of code =
    if code == 401
    then some "http_401_unauthorized"
    else if code == 403
    then some "http_403_forbidden_or_waf"
    else if code == 407
    then some "http_407_proxy_auth"
    else if code == 429
    then some "http_429_rate_limited"
    else if code == 451
    then some "http_451_legal_block"
    else none

module _ (search : String → Text → Bool) (default_reason : ℕ → String) where
  -- The escalation by the content; no pattern is tried on an empty page.
  unfoldable pub content_escalation : Text → Bool × Option String
  content_escalation html =
      if is_empty html
      then (false, none)
      else if any (λ p. search p html) auth_patterns
      then (true, some "auth_form_or_bot_challenge_detected")
      else if any (λ p. search p html) empty_html_patterns
      then (true, some "js_rendered_spa_shell")
      else (false, none)

  unfoldable pub should_escalate_to_deep : ℕ → Text → String → Bool × Option String
  unfolding reason_of content_escalation
  should_escalate_to_deep status_code html current_worker =
      let reason : String = elim (reason_of status_code) [
        | none ↦ default_reason status_code
        | some r ↦ r
      ] in
      if not (current_worker == "surface")
      then (false, none)
      else if contains escalation_status_codes status_code
      then (true, some reason)
      else content_escalation html

  unfoldable pub check_escalation : ℕ → Text → String → Bool × Option String
  unfolding should_escalate_to_deep
  check_escalation status_code html current_worker =
      should_escalate_to_deep status_code html current_worker

known_reason : (code : ℕ) → contains escalation_status_codes code ≡ true → reason_of code ≢ none
unfolding escalation_status_codes reason_of
known_reason code h = elim (Option-cases (reason_of code)) [
  | inl unknown ↦ ground arith
  | inr (r, known) ↦ ground arith
]

-- A page goes on to the deep worker exactly when there is a reason, only the surface worker passes
-- pages on, it always does so for the five status codes, whatever the page says, and the reason
-- made up of the code alone is never given.
pub check_escalation_lem :
    (search : String → Text → Bool) (default_reason other_default : ℕ → String) (status_code : ℕ)
    (html : Text) (worker : String)
    → let e = check_escalation search default_reason status_code html worker in
      ((e.0 ≡ true) ↔ (e.1 ≢ none))
      × (e.0 ≡ true → worker ≡ "surface")
      × (worker ≡ "surface" → contains escalation_status_codes status_code ≡ true → e.0 ≡ true)
      × (e ≡ check_escalation search other_default status_code html worker)
unfolding check_escalation
check_escalation_lem search default_reason other_default code html worker = (
  (λ h. ground arith, λ h. ground arith),
  λ h. ground (arith, eq_iff worker "surface"),
  λ w h. ground (arith, eq_iff worker "surface"),
  ground (arith, known_reason code),
)
