-- ===== src/Links/Loops.antt =====
-- What the two loops of `_is_crawler_trap` over the segments of a path decide
-- (app/services/link_extraction_service.py).
use duka_scraper.Base.{
  ℕ, ◌+◌, ◌≤◌, ◌≡◌, ◌≢◌, refl, ap, ◌↔◌, inl, inr, true, List, [], ◌∷◌, leb, ◌==◌, arith,
  if◌then◌else◌, Bool-cases,
}
use duka_scraper.Base.Text.{Text, text_eq, text_beq_iff}
use duka_scraper.Links.Constants.{max_segment_repeat}
use duka_scraper.Links.Trap.{run_loop, has_long_run, bump, get_count, count_loop}

-- How often `s` occurs.
unfoldable pub occurrences : Text → List Text → ℕ
occurrences s [] = 0
occurrences s (x ∷ xs) = (if x == s then 1 else 0) + occurrences s xs

get_count-bump :
    (s k : Text) (counts : List (Text × ℕ))
    → get_count k (bump s counts) ≡ (if s == k then 1 else 0) + get_count k counts
unfolding get_count bump
get_count-bump s k [] = ground arith
get_count-bump s k ((j, n) ∷ counts) =
    ground (arith, get_count-bump s k counts, text_beq_iff s k, text_beq_iff j s, text_beq_iff j k)

-- Some segment that is still to come reaches the limit, on top of what the dict counts.
abbrev Repeats : List (Text × ℕ) → List Text → Type 0
Repeats counts segs =
    (s : Text) × (occurrences s segs ≢ 0)
    × (max_segment_repeat ≤ get_count s counts + occurrences s segs)

count_loop_sound :
    (counts : List (Text × ℕ)) (segs : List Text)
    → count_loop counts segs ≡ true
    → Repeats counts segs
unfolding count_loop occurrences
count_loop_sound counts [] h = cc
count_loop_sound counts (x ∷ segs) h =
    elim (Bool-cases (leb max_segment_repeat (get_count x (bump x counts)))) [
      | inl now ↦ (
        x,
        ground (arith, text_beq_iff x x),
        ground (arith, text_beq_iff x x, get_count-bump x x counts),
      )
      | inr later ↦
          let (s, some_s, enough) = count_loop_sound (bump x counts) segs (ground arith) in
          (s, ground arith, ground (arith, get_count-bump x s counts))
    ]

count_loop_complete :
    (counts : List (Text × ℕ)) (segs : List Text)
    → Repeats counts segs
    → count_loop counts segs ≡ true
unfolding count_loop occurrences
count_loop_complete counts [] (s, some_s, enough) = absurd (some_s refl)
count_loop_complete counts (x ∷ segs) (s, some_s, enough) =
    elim (Bool-cases (leb max_segment_repeat (get_count x (bump x counts)))) [
      | inl now ↦ ground arith
      | inr later ↦ ground (
        arith,
        get_count-bump x s counts,
        get_count-bump x x counts,
        text_beq_iff x s,
        text_beq_iff x x,
        count_loop_complete (bump x counts) segs (
          s,
          ground (
            arith,
            get_count-bump x s counts,
            get_count-bump x x counts,
            text_beq_iff x s,
            text_beq_iff x x,
          ),
          ground (arith, get_count-bump x s counts),
        ),
      )
    ]

-- The loop over the counts answers `True` exactly when some segment occurs four times or more.
pub count_loop_iff :
    (segs : List Text)
    → (count_loop [] segs ≡ true) ↔ ((s : Text) × (max_segment_repeat ≤ occurrences s segs))
unfolding get_count
count_loop_iff segs = (
  λ h. let (s, some_s, enough) = count_loop_sound [] segs h in (s, omega arith),
  λ (s, enough). count_loop_complete [] segs (s, omega arith, omega arith),
)

-- Three equal segments in a row.
pub data HasTriple : List Text → Type 0 where
  here : {s : Text} {rest segs : List Text} → segs ≡ s ∷ s ∷ s ∷ rest → HasTriple segs
  there : {s : Text} {segs : List Text} → HasTriple segs → HasTriple (s ∷ segs)

run_loop_sound :
    (p : Text) (rest : List Text)
    → (run_loop 1 p rest ≡ true → HasTriple (p ∷ rest))
      × (run_loop 2 p rest ≡ true → HasTriple (p ∷ p ∷ rest))
unfolding run_loop
run_loop_sound p [] = (λ h. cc, λ h. cc)
run_loop_sound p (s ∷ rest) =
    let (one, two) = run_loop_sound s rest in
    elim (Bool-cases (s == p)) [
      | inl same ↦
          let e : s ≡ p = (text_beq_iff s p).0 same in
          (λ h. rw (← e) (two (ground arith)), λ h. here (ap (λ x. p ∷ p ∷ x ∷ rest) e))
      | inr other ↦ (λ h. there (one (ground arith)), λ h. there (there (one (ground arith))))
    ]

run_loop_mono : (p : Text) (rest : List Text) → run_loop 1 p rest ≡ true → run_loop 2 p rest ≡ true
unfolding run_loop
run_loop_mono p [] h = h
run_loop_mono p (s ∷ rest) h = ground arith

HasTriple-ne-nil : (segs : List Text) → segs ≡ [] → HasTriple segs → ⊥
HasTriple-ne-nil segs e (here e') = cc
HasTriple-ne-nil segs e (there h) = cc

run_loop_complete :
    (p : Text) (rest segs : List Text) → segs ≡ p ∷ rest → HasTriple segs → run_loop 1 p rest ≡ true
unfolding run_loop
run_loop_complete p [] segs e (here e') = cc
run_loop_complete p [] segs e (there {segs = rest'} h) = absurd (HasTriple-ne-nil rest' (cc) h)
run_loop_complete p (s ∷ []) segs e (here e') = cc
run_loop_complete p (s ∷ t ∷ rest) segs e (here e') =
    ground (arith, text_beq_iff s p, text_beq_iff t s)
run_loop_complete p (s ∷ rest) segs e (there {segs = rest'} h) =
    let one = run_loop_complete s rest rest' (cc) h in ground (arith, run_loop_mono s rest one)

-- The loop over the runs answers `True` exactly when three equal segments follow one another.
pub has_long_run_iff : (segs : List Text) → (has_long_run segs ≡ true) ↔ HasTriple segs
unfolding has_long_run
has_long_run_iff [] = (λ h. cc, λ h. absurd (HasTriple-ne-nil [] refl h))
has_long_run_iff (s ∷ rest) =
    ((run_loop_sound s rest).0, λ h. run_loop_complete s rest (s ∷ rest) refl h)
