-- ===== src/BookWalk/Tests.antt =====
-- A book in whole numbers, and the theorems at it.
use prep_watchdeck.Prelude.{
  ℕ, ◌+◌, ◌-◌, ◌*◌, ◌/◌, ◌≡◌, refl, true, false, String, some, List, [], ◌∷◌, ◌++◌, map, All, ltb,
  if◌then◌else◌,
}
use prep_watchdeck.Time.{DateTime, utc}
use prep_watchdeck.Text.{str_eq}
use prep_watchdeck.BookWalk.{
  DecimalOps, Level, BookWalkFill, BookWalkEstimate, notionals, walk, walk_levels, estimate,
  unavailable_reason, estimate_book_walks,
}
use prep_watchdeck.BookWalk.Walks.{walk_levels-append, estimates_of_usable}

abbrev whole : DecimalOps ℕ
whole = record {
  number = λ n. n;
  add = λ a b. a + b;
  sub = λ a b. a - b;
  mul = λ a b. a * b;
  div = λ a b. a / b;
  less = λ a b. ltb a b;
}

abbrev asks : List (Level ℕ)
asks = record { price = 10; size_base = 6 } ∷ record { price = 20; size_base = 50 } ∷ []

abbrev more : List (Level ℕ)
more = record { price = 30; size_base = 9 } ∷ []

abbrev filled : BookWalkFill ℕ
filled = record { base_size = 8; average_price = 12; top_price_impact_bps = 0 }

walk_levels-append_example : walk_levels whole (asks ++ more) 100 true ≡ some filled
unfolding walk_levels walk
walk_levels-append_example = walk_levels-append whole asks more 100 true filled refl

abbrev upper : String → String
upper asset = if str_eq asset "usdt" then "USDT" else asset

abbrev at : ℕ → DateTime
at n = record { instant = n; zone = utc }

abbrev estimates : ℕ → List (BookWalkEstimate ℕ)
estimates now =
    map (estimate whole asks asks (unavailable_reason upper "usdt" 5 now)) (notionals whole)

estimates_of_usable_example :
    (map (λ e. e.notional_quote) (estimates 9) ≡ 100 ∷ 500 ∷ 1000 ∷ [])
    × All
        (λ e.
          (e.buy ≡ walk_levels whole asks e.notional_quote true)
          × (e.sell ≡ walk_levels whole asks e.notional_quote false))
        (estimates 9)
unfolding estimate_book_walks unavailable_reason
estimates_of_usable_example =
    estimates_of_usable whole upper asks asks "usdt" (at 5) (at 9) (estimates 9) refl
