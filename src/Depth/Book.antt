-- ===== src/Depth/Book.antt =====
-- An accepted depth is an order book: sides in price order that do not cross.
use prep_watchdeck.Prelude.{
  ◌≤◌, ◌<◌, ◌≡◌, true, false, ◌||◌, List, [], ◌∷◌, length, arith, All, ltb, ok, raise_if,
  raise_if-eq-ok, >>-eq-ok, All-map,
}
use prep_watchdeck.Decimal.{Decimal, dec_ltb}
use prep_watchdeck.Depth.{
  DepthLevel, SelectedDepth, one_sided, too_deep, bids_unordered, asks_unordered, crossed,
  validate_common, rises, falls, is_empty, is_crossed, check_sides, check_depth,
}

-- `a < b` of finite decimals
abbrev pub IsBelow : Decimal → Decimal → Type 0
IsBelow a b = dec_ltb a b ≡ true

IsBelow-trans : (a b c : Decimal) → IsBelow a b → IsBelow b c → IsBelow a c
IsBelow-trans a b c h k = ground (arith, h, k)

-- every bid is below those before it
abbrev pub IsDescending : List DepthLevel → Type 0
IsDescending [] = Unit
IsDescending (l ∷ levels) = All (λ r. IsBelow r.price l.price) levels × IsDescending levels

abbrev pub IsAscending : List DepthLevel → Type 0
IsAscending [] = Unit
IsAscending (l ∷ levels) = All (λ r. IsBelow l.price r.price) levels × IsAscending levels

rises-IsDescending : (levels : List DepthLevel) → rises levels ≡ false → IsDescending levels
unfolding rises
rises-IsDescending [] h = tt
rises-IsDescending (l ∷ []) h = (tt, tt)
rises-IsDescending (l ∷ r ∷ levels) h =
    let first : IsBelow r.price l.price = ground (arith, h) in
    let rest = rises-IsDescending (r ∷ levels) (ground (arith, h)) in
    ((first, All-map (λ x k. IsBelow-trans x.price r.price l.price k first) levels rest.0), rest)

falls-IsAscending : (levels : List DepthLevel) → falls levels ≡ false → IsAscending levels
unfolding falls
falls-IsAscending [] h = tt
falls-IsAscending (l ∷ []) h = (tt, tt)
falls-IsAscending (l ∷ r ∷ levels) h =
    let first : IsBelow l.price r.price = ground (arith, h) in
    let rest = falls-IsAscending (r ∷ levels) (ground (arith, h)) in
    ((first, All-map (λ x k. IsBelow-trans l.price r.price x.price first k) levels rest.0), rest)

-- every bid is below every ask
abbrev pub IsApart : List DepthLevel → List DepthLevel → Type 0
IsApart bids asks = All (λ b. All (λ a. IsBelow b.price a.price) asks) bids

uncrossed-IsApart :
    (bids asks : List DepthLevel)
    → is_crossed bids asks ≡ false
    → IsDescending bids
    → IsAscending asks
    → IsApart bids asks
uncrossed-IsApart [] asks h d a = tt
uncrossed-IsApart (b ∷ bids) [] h d a = (tt, All-map (λ x k. tt) bids d.0)
uncrossed-IsApart (b ∷ bids) (l ∷ asks) h d a =
    let top : IsBelow b.price l.price = ground (arith, h) in
    let best = All-map (λ x k. IsBelow-trans b.price l.price x.price top k) asks a.0 in
    (
      (top, best),
      All-map
          (λ x k. (
            IsBelow-trans x.price b.price l.price k top,
            All-map (λ y m. IsBelow-trans x.price b.price y.price k m) asks best,
          ))
          bids d.0,
    )

pub record IsBook (d : SelectedDepth) : Type 0 where
  pub has_bid : 0 < length d.bids
  pub has_ask : 0 < length d.asks
  pub few_bids : length d.bids ≤ 20
  pub few_asks : length d.asks ≤ 20
  pub descending : IsDescending d.bids
  pub ascending : IsAscending d.asks
  pub apart : IsApart d.bids d.asks

nonempty :
    (bids asks : List DepthLevel)
    → (is_empty bids || is_empty asks) ≡ false
    → (0 < length bids) × (0 < length asks)
nonempty [] asks h = absurd (cc)
nonempty (b ∷ bids) [] h = absurd (cc)
nonempty (b ∷ bids) (a ∷ asks) h = (omega arith, omega arith)

-- A depth that its constructor accepts has one to twenty bids and as many asks; each bid is below
-- all bids before it, each ask above all asks before it, and every bid is below every ask.
pub check_depth-IsBook : (d : SelectedDepth) → check_depth d ≡ ok tt → IsBook d
unfolding check_depth check_sides
check_depth-IsBook d h =
    let (common, h0) =
      >>-eq-ok (validate_common d.source_symbol d.source_at d.received_at d.source_channel) _ h in
    let (h1, r1) = >>-eq-ok (raise_if (is_empty d.bids || is_empty d.asks) one_sided) _ h0 in
    let (h2, r2) =
      >>-eq-ok (raise_if (ltb 20 (length d.bids) || ltb 20 (length d.asks)) too_deep) _ r1 in
    let (h3, r3) = >>-eq-ok (raise_if (rises d.bids) bids_unordered) _ r2 in
    let (h4, r4) = >>-eq-ok (raise_if (falls d.asks) asks_unordered) _ r3 in
    let some_levels = nonempty d.bids d.asks (raise_if-eq-ok _ one_sided h1) in
    let few = raise_if-eq-ok _ too_deep h2 in
    let bids = rises-IsDescending d.bids (raise_if-eq-ok _ bids_unordered h3) in
    let asks = falls-IsAscending d.asks (raise_if-eq-ok _ asks_unordered h4) in
    record {
      has_bid = some_levels.0;
      has_ask = some_levels.1;
      few_bids = ground (arith, few);
      few_asks = ground (arith, few);
      descending = bids;
      ascending = asks;
      apart = uncrossed-IsApart d.bids d.asks (raise_if-eq-ok _ crossed r4) bids asks;
    }
