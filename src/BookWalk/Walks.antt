-- ===== src/BookWalk/Walks.antt =====
-- When the estimates of a book are made and from which side, and what they do not depend on.
use prep_watchdeck.Prelude.{
  ℕ, ◌+◌, ◌≡◌, refl, inl, inr, Bool, true, false, String, none, some, List, [], ◌∷◌, ◌++◌, map, All,
  arith, Bool-cases, ltb, ok, >>-eq-ok, leb, ◌&&◌, if◌then◌else◌,
}
use prep_watchdeck.Time.{DateTime}
use prep_watchdeck.BookWalk.{
  DecimalOps, Level, BookWalkFill, BookWalkEstimate, WalkReason, require_utc, unavailable_reason,
  notionals, positive, consumed, walk, walk_levels, estimate, estimate_book_walks,
  non_usd_like_quote, invalid_depth_time, stale_depth,
}
use prep_watchdeck.Depth.{is_usd_like}

module _ {D : Type 0} (ops : DecimalOps D) where
  -- a walk that ends within its levels reads no further ones
  walk-append :
      (l : Level D) (levels more : List (Level D)) (r b : D)
      → positive ops (walk ops (l ∷ levels) r b).0 ≡ false
      → walk ops (l ∷ levels ++ more) r b ≡ walk ops (l ∷ levels) r b
  unfolding walk
  walk-append l [] more r b h = elim (Bool-cases (positive ops (ops.sub r (consumed ops l r)))) [
    | inl e ↦ absurd (ground (arith, e, h))
    | inr e ↦ rw e refl
  ]
  walk-append l (k ∷ levels) more r b h =
      let left = ops.sub r (consumed ops l r) in
      let base' = ops.add b (ops.div (consumed ops l r) l.price) in
      elim (Bool-cases (positive ops left)) [
        | inl e ↦ rw e (walk-append k levels more left base' (rw e at h))
        | inr e ↦ rw e refl
      ]

  -- A fill does not depend on the levels beyond those that it consumes: with any further levels
  -- after the given ones, the fill is the same.
  pub walk_levels-append :
      (levels more : List (Level D)) (notional : D) (is_buy : Bool) (f : BookWalkFill D)
      → walk_levels ops levels notional is_buy ≡ some f
      → walk_levels ops (levels ++ more) notional is_buy ≡ some f
  unfolding walk_levels
  walk_levels-append [] more notional is_buy f h = absurd (cc)
  walk_levels-append (l ∷ levels) more notional is_buy f h =
      elim (Bool-cases (positive ops (walk ops (l ∷ levels) notional (ops.number 0)).0)) [
        | inl e ↦ absurd (let k = rw e at h in cc)
        | inr e ↦ rw (walk-append l levels more notional (ops.number 0) e) h
      ]

  estimates_ok :
      (upper : String → String) (bids asks : List (Level D)) (quote_asset : String)
      (received_at now : DateTime) (es : List (BookWalkEstimate D))
      → estimate_book_walks ops upper bids asks quote_asset received_at now ≡ ok es
      → map
          (estimate ops bids asks
            (unavailable_reason upper quote_asset received_at.instant now.instant))
          (notionals ops)
        ≡ es
  unfolding estimate_book_walks
  estimates_ok upper bids asks quote_asset received_at now es h =
      let (h1, r1) = >>-eq-ok (require_utc received_at) _ h in
      let (h2, r2) = >>-eq-ok (require_utc now) _ r1 in cc

  -- A depth that is estimated: its quote is like the dollar, it is not of a later time than now, and
  -- it is ten seconds old at most.
  abbrev pub is_usable : (String → String) → String → ℕ → ℕ → Bool
  is_usable upper quote_asset received now =
      is_usd_like upper quote_asset && leb received now && leb now (received + 10000000)

  usable-unavailable_reason :
      (upper : String → String) (quote_asset : String) (received now : ℕ)
      → is_usable upper quote_asset received now ≡ true
      → unavailable_reason upper quote_asset received now ≡ none
  unfolding unavailable_reason
  usable-unavailable_reason upper quote_asset received now h = ground arith

  unusable-unavailable_reason :
      (upper : String → String) (quote_asset : String) (received now : ℕ)
      → is_usable upper quote_asset received now ≡ false
      → (reason : WalkReason) × (unavailable_reason upper quote_asset received now ≡ some reason)
  unfolding unavailable_reason
  unusable-unavailable_reason upper quote_asset received now h =
      elim (Bool-cases (is_usd_like upper quote_asset)) [
        | inr e ↦ (non_usd_like_quote, rw e refl)
        | inl e ↦ elim (Bool-cases (ltb now received)) [
          | inl f ↦ (invalid_depth_time, rw (e, f) refl)
          | inr f ↦ (stale_depth, ground (arith, e, f, h))
        ]
      ]

  -- The estimates are for 100, 500 and 1000 units of the quote asset, in this order. Where the quote is
  -- like the dollar, and the depth is not of a later time than now and at most ten seconds old, buying
  -- walks the asks and selling the bids for the notional of the estimate; else neither has a fill.
  pub estimates_of_usable :
      (upper : String → String) (bids asks : List (Level D)) (quote_asset : String)
      (received_at now : DateTime) (es : List (BookWalkEstimate D))
      → estimate_book_walks ops upper bids asks quote_asset received_at now ≡ ok es
      → let usable = is_usable upper quote_asset received_at.instant now.instant in
        (map (λ e. e.notional_quote) es ≡ ops.number 100 ∷ ops.number 500 ∷ ops.number 1000 ∷ [])
        × All
            (λ e.
              (e.buy ≡ (if usable then walk_levels ops asks e.notional_quote true else none))
              × (e.sell ≡ (if usable then walk_levels ops bids e.notional_quote false else none)))
            es
  estimates_of_usable upper bids asks quote_asset received_at now es h =
      let received = received_at.instant in
      rw (← estimates_ok upper bids asks quote_asset received_at now es h)
        (elim (Bool-cases (is_usable upper quote_asset received now.instant)) [
          | inl u ↦
              rw (u, usable-unavailable_reason upper quote_asset received now.instant u)
                (refl, ((refl, refl), ((refl, refl), ((refl, refl), tt))))
          | inr u ↦
              let (reason, e) =
                unusable-unavailable_reason upper quote_asset received now.instant u in
              rw (u, e) (refl, ((refl, refl), ((refl, refl), ((refl, refl), tt))))
        ])
