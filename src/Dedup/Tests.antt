-- ===== src/Dedup/Tests.antt =====
-- Instances of the theorems on the record of visited URLs.
use duka_scraper.Base.{◌≡◌, Bool, true, false, List, [], ◌∷◌, contains}
use duka_scraper.Base.Text.{Text, codes, text_eq}
use duka_scraper.Dedup.{Key, Redis, new_service, check_visited, add_visited}
use duka_scraper.Dedup.Instances.{
  set_is_visited, set_mark_visited, services_remember, second_service_finds_nothing,
}

-- A filter without errors.
abbrev exact : List Text → Text → Bool
exact xs url = contains xs url

services_remember_example :
    let v = codes "b" ∷ [] in
    (set_is_visited exact (codes "a") (set_mark_visited exact (codes "a") v) ≡ true)
    × ((w : Text)
        → set_is_visited exact w v ≡ true
        → set_is_visited exact w (set_mark_visited exact (codes "a") v) ≡ true)
services_remember_example = services_remember exact (codes "a") (codes "b" ∷ [])

second_service_finds_nothing_example :
    let redis : Redis = record { has_module = true; key = Key.bloom (codes "a" ∷ []) } in
    ((check_visited exact (codes "a") (new_service redis)).0 ≡ false)
    × ((add_visited exact (codes "a") (new_service redis)).0 ≡ false)
    × ((add_visited exact (codes "a") (new_service redis)).1.redis ≡ redis)
second_service_finds_nothing_example =
    second_service_finds_nothing exact (codes "a" ∷ []) (codes "a")
