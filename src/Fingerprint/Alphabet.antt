-- ===== src/Fingerprint/Alphabet.antt =====
-- What the texts are made of that the content hash is taken of
-- (app/services/content_fingerprint_service.py), and what each step of the normalization keeps.
use duka_scraper.Base.{
  ℕ, nat_eq, ◌≡◌, refl, ◌⊎◌, inl, inr, String, Bool, true, ◌||◌, [], ◌∷◌, arith, All, if_ind,
  Bool-cases, if◌then◌else◌,
}
use duka_scraper.Base.Text.{Text, lstrip, rstrip}
use duka_scraper.Fingerprint.{
  is_space, is_alnum, strip, starts_space, collapse, scrub, content_segments, normalize_content,
}

module _ (P : ℕ → Type 0) where
  All-lstrip : (p : ℕ → Bool) (s : Text) → All P s → All P (lstrip p s)
  unfolding lstrip
  All-lstrip p [] h = tt
  All-lstrip p (c ∷ s) (one, rest) =
      if_ind (All P) (p c) (λ e. All-lstrip p s rest) (λ e. (one, rest))

  All-rstrip : (p : ℕ → Bool) (s : Text) → All P s → All P (rstrip p s)
  unfolding rstrip
  All-rstrip p [] h = tt
  All-rstrip p (c ∷ s) (one, rest) = rstrip_step (rstrip p s) (All-rstrip p s rest)
    where
      rstrip_step :
          (t : Text)
          → All P t
          → All P (elim t [ [] ↦ if p c then [] else c ∷ [] | b ∷ u ↦ c ∷ b ∷ u ])
      rstrip_step [] h = if_ind (All P) (p c) (λ e. tt) (λ e. (one, tt))
      rstrip_step (b ∷ u) h = (one, h)

  pub All-strip : (s : Text) → All P s → All P (strip s)
  unfolding strip
  All-strip s h = All-rstrip is_space _ (All-lstrip is_space s h)

  pub All-collapse : P b' ' → (s : Text) → All P s → All P (collapse s)
  unfolding collapse
  All-collapse blank [] h = tt
  All-collapse blank (c ∷ s) (one, rest) =
      let more = All-collapse blank s rest in
      if_ind (All P) (is_space c)
        (λ e. if_ind (All P) (starts_space s) (λ e'. more) (λ e'. (blank, more))) (λ e. (one, more))

IsSpelled : ℕ → Type 0
IsSpelled c = (is_alnum c ≡ true) ⊎ (c ≡ b' ')

collapse-IsSpelled :
    (s : Text) → All (λ c. (is_alnum c || is_space c) ≡ true) s → All IsSpelled (collapse s)
unfolding collapse IsSpelled
collapse-IsSpelled [] h = tt
collapse-IsSpelled (c ∷ s) (one, rest) =
    let more = collapse-IsSpelled s rest in
    if_ind (All IsSpelled) (is_space c)
      (λ e. if_ind (All IsSpelled) (starts_space s) (λ e'. more) (λ e'. (inr refl, more)))
      (λ e. (inl (ground arith), more))

scrub-spelled : (s : Text) → All (λ c. (is_alnum c || is_space c) ≡ true) (scrub s)
unfolding scrub is_space
scrub-spelled [] = tt
scrub-spelled (c ∷ s) = (
  elim (Bool-cases (is_alnum c || is_space c)) [
    | inl good ↦ rw good good
    | inr bad ↦ rw bad (ground arith)
  ],
  scrub-spelled s,
)

-- Whatever the regular expressions do, the text that is hashed has small letters of ASCII, digits
-- and spaces, and nothing else.
pub normalize_content-IsSpelled :
    (sub : String → Text → Text) (s : Text)
    → All (λ c. (is_alnum c ≡ true) ⊎ (c ≡ b' ')) (normalize_content sub s)
unfolding normalize_content IsSpelled
normalize_content-IsSpelled sub [] = tt
normalize_content-IsSpelled sub (c ∷ s) =
    All-strip IsSpelled _ (collapse-IsSpelled _ (scrub-spelled (content_segments sub (c ∷ s))))
