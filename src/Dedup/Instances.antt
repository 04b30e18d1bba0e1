-- ===== src/Dedup/Instances.antt =====
-- What the services of the requests of one job remember of each other's URLs
-- (app/services/dedup_service.py): each request has a service of its own, over one Redis.
use duka_scraper.Base.{
  ◌≡◌, refl, Bool, true, false, List, [], ◌∷◌, contains, arith, inl, inr, Bool-cases,
}
use duka_scraper.Base.Text.{Text, text_eq, text_beq_iff}
use duka_scraper.Crawl.{Dedup}
use duka_scraper.Dedup.{Key, Redis, new_service, check_visited, add_visited}

abbrev set_redis : List Text → Redis
set_redis xs = record { has_module = false; key = Key.members xs }

abbrev members_of : Key → List Text
members_of Key.absent = []
members_of (Key.members xs) = xs
members_of (Key.bloom xs) = []

module _ (finds : List Text → Text → Bool) where
  abbrev pub set_is_visited : Text → List Text → Bool
  set_is_visited url xs = (check_visited finds url (new_service (set_redis xs))).0

  abbrev pub set_mark_visited : Text → List Text → List Text
  set_mark_visited url xs =
      members_of (add_visited finds url (new_service (set_redis xs))).1.redis.key

  pub set_marked_self : (u : Text) (v : List Text) → set_is_visited u (set_mark_visited u v) ≡ true
  unfolding check_visited add_visited
  set_marked_self u v = elim (Bool-cases (contains v u)) [
    | inl known ↦ ground (arith, text_beq_iff u u)
    | inr new ↦ ground (arith, text_beq_iff u u)
  ]

  pub set_marked_other :
      (u w : Text) (v : List Text)
      → set_is_visited w v ≡ true
      → set_is_visited w (set_mark_visited u v) ≡ true
  unfolding check_visited add_visited
  set_marked_other u w v h = ground arith

  -- Without the module a later service finds what an earlier one added, and all that was found
  -- before.
  pub services_remember :
      (u : Text) (v : List Text)
      → (set_is_visited u (set_mark_visited u v) ≡ true)
        × ((w : Text) → set_is_visited w v ≡ true → set_is_visited w (set_mark_visited u v) ≡ true)
  services_remember u v = (set_marked_self u v, λ w h. set_marked_other u w v h)

  -- Without the module the services of a job together are the store that the crawl asks for.
  abbrev pub set_dedup : Dedup
  set_dedup = record {
    Visited = List Text;
    is_visited = set_is_visited;
    mark_visited = set_mark_visited;
    marked_self = set_marked_self;
    marked_other = set_marked_other;
  }

  -- With the module, only the service that made the filter uses it. Every later one takes the
  -- error of its probe for a missing module, asks the filter as if it were a set, and so finds no
  -- URL at all, whatever was added, and adds none.
  pub second_service_finds_nothing :
      (xs : List Text) (url : Text)
      → let redis : Redis = record { has_module = true; key = Key.bloom xs } in
        ((check_visited finds url (new_service redis)).0 ≡ false)
        × ((add_visited finds url (new_service redis)).0 ≡ false)
        × ((add_visited finds url (new_service redis)).1.redis ≡ redis)
  unfolding check_visited add_visited
  second_service_finds_nothing xs url = (refl, refl, refl)

  -- The service that probes first finds what it adds itself, filter or set, if the filter has no
  -- false negatives.
  pub first_service_finds :
      (u : Text) (has_module : Bool)
      → ((xs : List Text) (w : Text) → contains xs w ≡ true → finds xs w ≡ true)
      → let s = new_service (record { has_module = has_module; key = Key.absent }) in
        (check_visited finds u (add_visited finds u s).1).0 ≡ true
  unfolding check_visited add_visited
  first_service_finds u true complete = complete (u ∷ []) u (ground (arith, text_beq_iff u u))
  first_service_finds u false complete = ground (arith, text_beq_iff u u)
