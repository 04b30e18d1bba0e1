-- ===== src/Base/Text.antt =====
-- Text that the program walks, as the list of its code points. `lower` folds the ASCII letters.
use Prim.Native.Nat.{ℕ, ◌+◌}
use Prim.Native.Char.{code}
use Prim.Native.String.{String}
use mathlib.Core.Path.{◌≡◌, refl, ap}
use mathlib.Core.Logic.{◌↔◌, inl, inr}
use mathlib.Core.Bool.{Bool, true, false, ◌&&◌, ◌||◌}
use mathlib.Core.Option.{Option, none, some}
use mathlib.Core.List.{List, [], ◌∷◌, ◌++◌, map}
use native.Mathlib.Omega.{arith}
use duka_scraper.Base.Equality.{Eq, nat_beq, leb, Bool-cases, if◌then◌else◌}

abbrev pub Text : Type 0
Text = List ℕ

abbrev pub codes : String → Text
codes String.[] = []
codes (String.◌∷◌ c s) = code c ∷ codes s

unfoldable pub text_beq : Text → Text → Bool
text_beq [] [] = true
text_beq (a ∷ s) (b ∷ t) = nat_beq a b && text_beq s t
text_beq _ _ = false

pub text_beq_iff : (s t : Text) → (text_beq s t ≡ true) ↔ (s ≡ t)
unfolding text_beq
text_beq_iff [] [] = (λ _. refl, λ _. refl)
text_beq_iff [] (b ∷ t) = (λ h. cc, λ h. cc)
text_beq_iff (a ∷ s) [] = (λ h. cc, λ h. cc)
text_beq_iff (a ∷ s) (b ∷ t) = ground (arith, text_beq_iff s t)

instance abbrev pub text_eq : Eq Text
text_eq = record { beq = text_beq; beq_iff = text_beq_iff }

unfoldable pub lower_code : ℕ → ℕ
lower_code c = if leb b'A' c && leb c b'Z' then c + 32 else c

-- `s.lower()`
abbrev pub lower : Text → Text
lower = map lower_code

-- `s.startswith(t)`
unfoldable pub starts_with : Text → Text → Bool
starts_with s [] = true
starts_with [] (b ∷ t) = false
starts_with (a ∷ s) (b ∷ t) = nat_beq a b && starts_with s t

-- `s.endswith(t)`
unfoldable pub ends_with : Text → Text → Bool
ends_with [] t = text_beq [] t
ends_with (a ∷ s) t = text_beq (a ∷ s) t || ends_with s t

-- `t in s`
unfoldable pub has_infix : Text → Text → Bool
unfolding starts_with
has_infix [] t = starts_with [] t
has_infix (a ∷ s) t = starts_with (a ∷ s) t || has_infix s t

-- Before and after the first `c`, if there is one.
unfoldable pub cut : ℕ → Text → Option (Text × Text)
cut c [] = none
cut c (a ∷ s) =
    let rest : Option (Text × Text) = elim (cut c s) [
      | none ↦ none
      | some (x, y) ↦ some (a ∷ x, y)
    ] in
    if nat_beq a c then some ([], s) else rest

-- Before and after the last `c`, if there is one.
unfoldable pub rcut : ℕ → Text → Option (Text × Text)
rcut c [] = none
rcut c (a ∷ s) = elim (rcut c s) [
  | some (x, y) ↦ some (a ∷ x, y)
  | none ↦ if nat_beq a c then some ([], s) else none
]

-- `s.lstrip(...)` of the codes that pass.
unfoldable pub lstrip : (ℕ → Bool) → Text → Text
lstrip p [] = []
lstrip p (a ∷ s) = let rest = lstrip p s in if p a then rest else a ∷ s

-- `s.rstrip(...)`
unfoldable pub rstrip : (ℕ → Bool) → Text → Text
rstrip p [] = []
rstrip p (a ∷ s) = elim (rstrip p s) [ [] ↦ if p a then [] else a ∷ [] | b ∷ t ↦ a ∷ b ∷ t ]

abbrev pub is_code : ℕ → ℕ → Bool
is_code c a = nat_beq a c

-- `s.split(c)`
unfoldable pub split_on : ℕ → Text → List Text
split_on c [] = [] ∷ []
split_on c (a ∷ s) = elim (split_on c s) [
  | [] ↦ (a ∷ []) ∷ []
  | w ∷ ws ↦ if nat_beq a c then [] ∷ w ∷ ws else (a ∷ w) ∷ ws
]

abbrev pub is_empty {ℓ} : {A : Type ℓ} → List A → Bool
is_empty [] = true
is_empty (_ ∷ _) = false

pub starts_with_iff : (s t : Text) → (starts_with s t ≡ true) ↔ ((r : Text) × (s ≡ t ++ r))
unfolding starts_with
starts_with_iff s [] = (λ h. (s, refl), λ e. refl)
starts_with_iff [] (b ∷ t) = (λ h. cc, λ (r, e). cc)
starts_with_iff (a ∷ s) (b ∷ t) = (
  λ h. let (r, e) = (starts_with_iff s t).0 (ground arith) in (r, ground arith),
  λ (r, e). ground (arith, (starts_with_iff s t).1 (r, (cc))),
)

pub ends_with_sound : (s t : Text) → ends_with s t ≡ true → (r : Text) × (s ≡ r ++ t)
unfolding ends_with
ends_with_sound [] t h = ([], (text_beq_iff [] t).0 h)
ends_with_sound (a ∷ s) t h = elim (Bool-cases (text_beq (a ∷ s) t)) [
  | inl e ↦ ([], (text_beq_iff (a ∷ s) t).0 e)
  | inr e ↦ let (r, e') = ends_with_sound s t (ground arith) in (a ∷ r, ap (λ x. a ∷ x) e')
]

ends_with_self : (t : Text) → ends_with t t ≡ true
unfolding ends_with
ends_with_self [] = (text_beq_iff [] []).1 refl
ends_with_self (a ∷ t) = ground (arith, (text_beq_iff (a ∷ t) (a ∷ t)).1 refl)

pub ends_with-append : (r t : Text) → ends_with (r ++ t) t ≡ true
unfolding ends_with
ends_with-append [] t = ends_with_self t
ends_with-append (a ∷ r) t = ground (arith, ends_with-append r t)

pub ends_with_iff : (s t : Text) → (ends_with s t ≡ true) ↔ ((r : Text) × (s ≡ r ++ t))
ends_with_iff s t = (ends_with_sound s t, λ (r, e). rw e (ends_with-append r t))

pub has_infix_sound :
    (s t : Text) → has_infix s t ≡ true → (l : Text) × (r : Text) × (s ≡ l ++ (t ++ r))
unfolding has_infix
has_infix_sound [] t h = let (r, e) = (starts_with_iff [] t).0 h in ([], r, e)
has_infix_sound (a ∷ s) t h = elim (Bool-cases (starts_with (a ∷ s) t)) [
  | inl e ↦ let (r, e') = (starts_with_iff (a ∷ s) t).0 e in ([], r, e')
  | inr e ↦ let (l, r, e') = has_infix_sound s t (ground arith) in (a ∷ l, r, ap (λ x. a ∷ x) e')
]

starts_with→has_infix : (s t : Text) → starts_with s t ≡ true → has_infix s t ≡ true
unfolding has_infix
starts_with→has_infix [] t h = h
starts_with→has_infix (a ∷ s) t h = ground arith

pub has_infix-append : (l t r : Text) → has_infix (l ++ (t ++ r)) t ≡ true
unfolding has_infix
has_infix-append [] t r =
    starts_with→has_infix (t ++ r) t ((starts_with_iff (t ++ r) t).1 (r, refl))
has_infix-append (a ∷ l) t r = ground (arith, has_infix-append l t r)

pub has_infix_iff :
    (s t : Text) → (has_infix s t ≡ true) ↔ ((l : Text) × (r : Text) × (s ≡ l ++ (t ++ r)))
has_infix_iff s t = (has_infix_sound s t, λ (l, r, e). rw e (has_infix-append l t r))
