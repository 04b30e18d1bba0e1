-- ===== src/Base/Table.antt =====
-- A database table as a list of rows with a text key: `SELECT … WHERE key = k`, which takes the
-- first row, and `UPDATE … SET f WHERE key = k AND guard`.
use Prim.Native.String.{String}
use mathlib.Core.Path.{◌≡◌, refl}
use mathlib.Core.Bool.{Bool, ◌&&◌}
use mathlib.Core.Option.{Option, none, some}
use mathlib.Core.Option
use mathlib.Core.List.{List, [], ◌∷◌, map}
use native.Mathlib.Omega.{arith}
use text.Mathlib.TextEquality.{eq_iff}
use duka_scraper.Base.Equality.{◌==◌, if◌then◌else◌, string_eq}

module _ {ℓ} {Row : Type ℓ} (key : Row → String) where
  abbrev pub select : String → List Row → Option Row
  select k [] = none
  select k (r ∷ rs) = let rest = select k rs in if key r == k then some r else rest

  abbrev pub update_row : String → (Row → Bool) → (Row → Row) → Row → Row
  update_row k guard f r = if key r == k && guard r then f r else r

  abbrev pub update : String → (Row → Bool) → (Row → Row) → List Row → List Row
  update k guard f = map (update_row k guard f)

  -- An update that keeps the keys changes the row of its own key, if the guard holds there, and
  -- no other row.
  pub select-update :
      (j k : String) (guard : Row → Bool) (f : Row → Row)
      → ((r : Row) → key (f r) ≡ key r)
      → (rs : List Row)
      → select j (update k guard f rs)
        ≡ Option.map (λ r. if k == j && guard r then f r else r) (select j rs)
  select-update j k guard f same [] = refl
  select-update j k guard f same (r ∷ rs) = ground (
    arith,
    same r,
    eq_iff (key r) j,
    eq_iff (key r) k,
    eq_iff k j,
    select-update j k guard f same rs,
  )

  -- `UPDATE … RETURNING`: the row as written, if one was.
  abbrev pub returning : String → (Row → Bool) → (Row → Row) → List Row → Option Row
  returning k guard f rs = elim (select k rs) [
    | none ↦ none
    | some r ↦ if guard r then some (f r) else none
  ]
