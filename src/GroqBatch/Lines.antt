-- ===== src/GroqBatch/Lines.antt =====
-- `str.splitlines`, and a text put together from lines.
use duka_scraper.Base.{
  ℕ, ◌≡◌, refl, Bool, true, false, not, ◌&&◌, ◌||◌, List, [], ◌∷◌, ◌++◌, all, leb, nat_beq, arith,
  if◌then◌else◌,
}
use duka_scraper.Base.Text.{Text}

-- The line boundaries of `splitlines`: LF, VT, FF, CR, FS, GS, RS, NEL, LS and PS.
unfoldable pub is_line_break : ℕ → Bool
is_line_break c =
    leb 10 c && leb c 13
    || leb 28 c && leb c 30
    || nat_beq c 0x85
    || nat_beq c 0x2028
    || nat_beq c 0x2029

abbrev pub starts_newline : Text → Bool
starts_newline [] = false
starts_newline (c ∷ s) = nat_beq c 10

abbrev pub onto_first : ℕ → List Text → List Text
onto_first c [] = (c ∷ []) ∷ []
onto_first c (l ∷ ls) = (c ∷ l) ∷ ls

-- CR before LF is one boundary with it.
unfoldable pub splitlines : Text → List Text
unfolding is_line_break
splitlines [] = []
splitlines (c ∷ s) =
    let rest = splitlines s in
    if nat_beq c 13 && starts_newline s
    then rest
    else if is_line_break c
    then [] ∷ rest
    else onto_first c rest

-- `"\n".join(lines) + "\n"`, for at least one line
abbrev pub join_lines : List Text → Text
join_lines [] = []
join_lines (l ∷ ls) = l ++ 10 ∷ join_lines ls

abbrev pub is_line : Text → Bool
is_line = all (λ c. not (is_line_break c))

splitlines-append : (l s : Text) → is_line l ≡ true → splitlines (l ++ 10 ∷ s) ≡ l ∷ splitlines s
unfolding splitlines
splitlines-append [] s h = refl
splitlines-append (c ∷ l) s h = ground (arith, splitlines-append l s)

pub splitlines-join_lines :
    (ls : List Text) → all is_line ls ≡ true → splitlines (join_lines ls) ≡ ls
unfolding splitlines
splitlines-join_lines [] h = refl
splitlines-join_lines (l ∷ ls) h =
    ground (arith, splitlines-append l (join_lines ls), splitlines-join_lines ls)
