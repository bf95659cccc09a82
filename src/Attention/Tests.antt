-- ===== src/Attention/Tests.antt =====
-- Two assets for one slot, under the policy that keeps what is held, and the theorem at them.
use prep_watchdeck.Prelude.{
  ℕ, ◌+◌, ◌-◌, ◌*◌, ◌/◌, ◌≤◌, ◌≡◌, refl, true, String, some, List, [], ◌∷◌, length, All, ltb, ◌==◌,
}
use prep_watchdeck.Attention.{
  distinct, FloatOps, ready, is_ready, AttentionRow, AllocationPolicy, hysteresis, ShadowSlot,
}
use prep_watchdeck.Attention.Choice.{slot_of, allocate_shadow_hotset}
use prep_watchdeck.Attention.Allowed.{IsAllowed, slots-AreAllowed}

abbrev whole : FloatOps ℕ
whole = record {
  number = λ n. n;
  add = λ a b. a + b;
  sub = λ a b. a - b;
  mul = λ a b. a * b;
  div = λ a b. a / b;
  less = λ a b. ltb a b;
  equal = λ a b. a == b;
}

abbrev row : String → ℕ → ℕ → AttentionRow ℕ
row asset score rank = record {
  asset_id = asset;
  identity_status = is_ready;
  components = λ name. ready score rank;
  data_as_of = 600000;
  originals = record { group_id = some asset; current = true } ∷ [];
}

abbrev rows : List (AttentionRow ℕ)
rows = row "btc" 70 2 ∷ row "eth" 90 1 ∷ []

abbrev policy : AllocationPolicy ℕ
policy = record {
  kind = hysteresis;
  component = "confluence";
  k = 1;
  buffer = 0;
  minimum_hold_minutes = 5;
  switch_penalty = 1;
  warm_up_cost = 1;
}

abbrev slots : List (ShadowSlot ℕ)
slots =
    record { asset_id = "btc"; group_ids = "btc" ∷ []; entered_at = 500000; score = 80; rank = 1 }
    ∷ []

-- The held asset stays, although another has the better score.
held_stays : (allocate_shadow_hotset whole is_ready 700000 policy rows true slots).added ≡ []
unfolding allocate_shadow_hotset distinct slot_of
held_stays = refl

-- Once it is not held any more, it goes.
released_goes :
    (allocate_shadow_hotset whole is_ready 720000 policy rows true (
      record { asset_id = "btc"; group_ids = "btc" ∷ []; entered_at = 400000; score = 80; rank = 1 }
      ∷ [])).added
    ≡ "eth" ∷ []
unfolding allocate_shadow_hotset distinct slot_of
released_goes = refl

slots-AreAllowed_example :
    (length (allocate_shadow_hotset whole is_ready 700000 policy rows true slots).slots ≤ 1)
    × All
        (λ (s : ShadowSlot ℕ). IsAllowed is_ready 700000 policy rows s.asset_id)
        (allocate_shadow_hotset whole is_ready 700000 policy rows true slots).slots
slots-AreAllowed_example = slots-AreAllowed is_ready 700000 policy whole rows true slots
