-- ===== src/Dedup.antt =====
-- `DedupService` (app/services/dedup_service.py), which remembers the URLs of a job in Redis: under
-- one key, as a Bloom filter of the RedisBloom module or as a plain set. Redis is not part of the
-- program: the commands are given by their documented replies, `none` for an error.
pub mod Instances
mod Tests
use duka_scraper.Base.{
  Bool, true, false, ◌||◌, Option, none, some, List, [], ◌∷◌, not, contains, if◌then◌else◌, ◌==◌,
}
use duka_scraper.Base.Text.{Text, text_eq}

-- What the job's key holds; a Bloom filter is given by what was added to it.
pub data Key : Type 0 where
  absent : Key
  members : List Text → Key
  bloom : List Text → Key

-- `has_module` says whether RedisBloom is loaded.
pub record Redis : Type 0 where
  pub has_module : Bool
  pub key : Key

-- The service as it stands for one crawl request: `use_set` is `_use_set`, `none` before the probe
-- and `some true` when the filter is used.
pub record Service : Type 0 where
  pub use_set : Option Bool
  pub redis : Redis

abbrev pub new_service : Redis → Service
new_service redis = record { use_set = none; redis = redis }

-- `BF.RESERVE`: an error without the module, and for a key that exists.
unfoldable pub reserve : Redis → Option Redis
reserve redis = elim redis.key [
  | absent ↦ if redis.has_module then some (record redis { key = bloom [] }) else none
  | members xs ↦ none
  | bloom xs ↦ none
]

-- `SISMEMBER` and `SADD`: errors where the key is no set.
unfoldable pub sismember : Text → Redis → Option Bool
sismember url redis = elim redis.key [
  | absent ↦ some false
  | members xs ↦ some (contains xs url)
  | bloom xs ↦ none
]

unfoldable pub sadd : Text → Redis → Option (Bool × Redis)
sadd url redis = elim redis.key [
  | absent ↦ some (true, record redis { key = members (url ∷ []) })
  | members xs ↦ some (
      if contains xs url then (false, redis) else (true, record redis { key = members (url ∷ xs) }))
  | bloom xs ↦ none
]

-- `probe`
unfoldable pub probe : Service → Service
unfolding reserve
probe s = elim (reserve s.redis) [
  | none ↦ record s { use_set = some false }
  | some redis ↦ record { use_set = some true; redis = redis }
]

unfoldable pub probed : Service → Service
unfolding probe
probed s = elim (s.use_set) [ none ↦ probe s | some b ↦ s ]

abbrev pub uses_filter : Service → Bool
uses_filter s = elim (s.use_set) [ none ↦ false | some b ↦ b ]

-- `finds xs url` is the answer of a Bloom filter to which `xs` were added.
module _ (finds : List Text → Text → Bool) where
  -- `BF.EXISTS` and `BF.ADD`: errors without the module, and where the key is no filter.
  unfoldable pub bf_exists : Text → Redis → Option Bool
  bf_exists url redis = elim redis.key [
    | absent ↦ if redis.has_module then some false else none
    | members xs ↦ none
    | bloom xs ↦ if redis.has_module then some (finds xs url) else none
  ]

  unfoldable pub bf_add : Text → Redis → Option (Bool × Redis)
  bf_add url redis = elim redis.key [
    | absent ↦
        if redis.has_module then some (true, record redis { key = bloom (url ∷ []) }) else none
    | members xs ↦ none
    | bloom xs ↦
        if redis.has_module
        then some (not (finds xs url), record redis { key = bloom (url ∷ xs) })
        else none
  ]

  -- An error counts as a URL that was not visited.
  unfoldable pub check_visited : Text → Service → Bool × Service
  unfolding probed bf_exists sismember
  check_visited url s =
      let s' = probed s in
      let reply = if uses_filter s' then bf_exists url s'.redis else sismember url s'.redis in
      elim reply [ none ↦ (false, s') | some known ↦ (known, s') ]

  unfoldable pub add_visited : Text → Service → Bool × Service
  unfolding probed bf_add sadd
  add_visited url s =
      let s' = probed s in
      let reply = if uses_filter s' then bf_add url s'.redis else sadd url s'.redis in
      elim reply [ none ↦ (false, s') | some (added, redis) ↦ (added, record s' { redis = redis }) ]
