-- ===== src/LlmQueue/Loads.antt =====
-- What a claim of app/services/llm_analysis_queue.py gives to its worker, and the rows it leaves: the
-- loop over the rows that were taken, in which a payload that is not JSON fails its row.
use duka_scraper.Base.{
  ℕ, ◌≡◌, ◌≢◌, refl, ap, String, Bool, true, false, ◌&&◌, Option, none, some, List, [], ◌∷◌, map,
  arith, eq_iff, All, ◌==◌, string_eq, if◌then◌else◌, contains, Bool-cases, Option-cases, subst,
  inl, inr, AnyOf,
}
use duka_scraper.LlmQueue.{
  Row, QueueItem, row_key, claimable, is_due, write_claim, load_claimed, claim,
}
use duka_scraper.LlmQueue.Rows.{HasOnly, HasOnly-item_id, HasOnly-map, sole-map, sole-keep}
use duka_scraper.LlmQueue.Claims.{
  claimable_others, contains_others, others_contains, All-claimable, All-map_claim,
  HasOnly-update_all, HasOnly-fail,
}

module _ {Payload : Type 0} (loads : String → Option Payload) where
  load_claimed_others :
      (now : ℕ) (j : String) (r : Row) (rs q : List Row)
      → All (λ (x : Row). x.item_id ≢ j) rs
      → HasOnly j r q
      → let (items, q') = load_claimed loads now rs q in
        HasOnly j r q' × All (λ (i : QueueItem Payload). i.item_id ≢ j) items
  unfolding load_claimed
  load_claimed_others now j r [] q others h = (h, tt)
  load_claimed_others now j r (x ∷ rs) q (one, rest) h = elim (Option-cases (loads x.payload)) [
    | inl corrupt ↦
        rw (corrupt, load_claimed)
          (load_claimed_others now j r rs _ rest (
            HasOnly-fail now x.item_id "corrupt payload" none j r q
              (ground (arith, eq_iff x.item_id j)) h))
    | inr (payload, good) ↦
        let (kept, items) = load_claimed_others now j r rs q rest h in
        rw (good, load_claimed) (kept, (one, items))
  ]

  -- A claim leaves a row that is not due, and does not give its item.
  pub claim_others :
      (now : ℕ) (locked : String → Bool) (limit : ℕ) (worker j : String) (r : Row) (q : List Row)
      → is_due now locked r ≡ false
      → HasOnly j r q
      → let (items, q') = claim loads now locked limit worker q in
        HasOnly j r q' × All (λ (i : QueueItem Payload). i.item_id ≢ j) items
  unfolding claim
  claim_others now locked limit worker j r q idle h =
      let others = claimable_others now locked limit j r q idle h in
      load_claimed_others now j r _ _ (All-map_claim now worker j _ others) (
        HasOnly-update_all _ (λ x. true) (write_claim now worker) j r q (λ x. refl)
          (ground (arith, contains_others j _ others)) h)

  AnyOf-All :
      (j : String) (items : List (QueueItem Payload))
      → AnyOf (λ (i : QueueItem Payload). i.item_id ≡ j) items
      → All (λ (i : QueueItem Payload). i.item_id ≢ j) items
      → ⊥
  AnyOf-All j [] h others = h
  AnyOf-All j (i ∷ items) (inl e) (one, rest) = one e
  AnyOf-All j (i ∷ items) (inr h) (one, rest) = AnyOf-All j items h rest

  load_claimed-corrupt :
      (now : ℕ) (j : String) (r : Row) (rs q : List Row)
      → loads r.payload ≡ none
      → All (λ (x : Row). x.item_id ≡ j → x ≡ r) rs
      → All (λ (i : QueueItem Payload). i.item_id ≢ j) (load_claimed loads now rs q).0
  unfolding load_claimed
  load_claimed-corrupt now j r [] q bad sole = tt
  load_claimed-corrupt now j r (x ∷ rs) q bad (one, rest) = elim (Option-cases (loads x.payload)) [
    | inl corrupt ↦ rw (corrupt, load_claimed) (load_claimed-corrupt now j r rs _ bad rest)
    | inr (payload, good) ↦
        rw (good, load_claimed)
          (
            λ e. let same = ap (λ (y : Row). loads y.payload) (one e) in ground arith,
            load_claimed-corrupt now j r rs q bad rest,
          )
  ]

  load_claimed-good :
      (now : ℕ) (j : String) (r : Row) (p : Payload) (rs q : List Row)
      → loads r.payload ≡ some p
      → All (λ (x : Row). x.item_id ≡ j → x ≡ r) rs
      → HasOnly j r q
      → HasOnly j r (load_claimed loads now rs q).1
  unfolding load_claimed
  load_claimed-good now j r p [] q fine sole h = h
  load_claimed-good now j r p (x ∷ rs) q fine (one, rest) h =
      elim (Option-cases (loads x.payload)) [
        | inl corrupt ↦
            let other : (x.item_id == j) ≡ false = elim (Bool-cases (x.item_id == j)) [
              | inl e ↦
                  let same = ap (λ (y : Row). loads y.payload) (one ((eq_iff x.item_id j).0 e)) in
                  ground arith
              | inr e ↦ e
            ] in
            rw (corrupt, load_claimed)
              (load_claimed-good now j r p rs _ fine rest
                (HasOnly-fail now x.item_id "corrupt payload" none j r q other h))
        | inr (payload, good) ↦
            rw (good, load_claimed) (load_claimed-good now j r p rs q fine rest h)
      ]

  claimed_HasOnly :
      (now : ℕ) (j : String) (r : Row) (rs q : List Row)
      → All (λ (x : Row). x.item_id ≡ j → x ≡ r) rs
      → HasOnly j r q
      → AnyOf (λ (i : QueueItem Payload). i.item_id ≡ j) (load_claimed loads now rs q).0
      → HasOnly j r (load_claimed loads now rs q).1
  claimed_HasOnly now j r rs q sole h given = elim (Option-cases (loads r.payload)) [
    | inl corrupt ↦ absurd (AnyOf-All j _ given (load_claimed-corrupt now j r rs q corrupt sole))
    | inr (p, fine) ↦ load_claimed-good now j r p rs q fine sole h
  ]

  -- An item that a claim gives was due, no other transaction held it, and from then on its row is
  -- in flight with the worker, since the time of the claim, and counts one attempt more.
  pub claim-HasOnly :
      (now : ℕ) (locked : String → Bool) (limit : ℕ) (worker j : String) (r : Row) (q : List Row)
      → HasOnly j r q
      → AnyOf (λ (i : QueueItem Payload). i.item_id ≡ j) (claim loads now locked limit worker q).0
      → (is_due now locked r ≡ true)
        × HasOnly j (write_claim now worker r) (claim loads now locked limit worker q).1
  unfolding claim
  claim-HasOnly now locked limit worker j r q h given =
      let chosen = claimable now locked limit q in
      let step = λ (x : Row).
        if contains (map row_key chosen) x.item_id && true then write_claim now worker x else x in
      let due : is_due now locked r ≡ true = elim (Bool-cases (is_due now locked r)) [
        | inl e ↦ e
        | inr e ↦ absurd (AnyOf-All j _ given (claim_others now locked limit worker j r q e h).1)
      ] in
      let sole =
        All-claimable (λ x. x.item_id ≡ j → x ≡ r) now locked limit q
          (sole-keep (is_due now locked) j r q h.sole) in
      (
        due,
        elim (Bool-cases (contains (map row_key chosen) j)) [
          | inr out ↦ absurd (
              AnyOf-All j _ given
                (load_claimed_others now j r _ _
                  (All-map_claim now worker j chosen (others_contains j chosen out))
                  (HasOnly-update_all (map row_key chosen) (λ x. true) (write_claim now worker) j r
                    q (λ x. refl) (ground arith) h)).1)
          | inl taken ↦
              let same : step r ≡ write_claim now worker r =
                ground (arith, HasOnly-item_id j r q h) in
              claimed_HasOnly now j (write_claim now worker r) _ _
                (sole-map (write_claim now worker) j r chosen (λ x. refl) sole)
                (subst (λ y. HasOnly j y (map step q)) same
                  (HasOnly-map step j r q (λ x. ground arith) h))
                given
        ],
      )
