-- ===== src/Hems/Dispatchability/Safety/Contracts.antt =====
-- The bounds of the contract of each kind of asset.
use helios_home.Prelude.{true, false, Option, some, List, [], str_eq, ◌≡◌, refl, arith, ap}
use helios_home.Prelude.Float.{Float, IsOrdered, of_nat}
use helios_home.Prelude.Json.{Fields}
use helios_home.Hems.Models.{Reason, CommandContract}
use helios_home.Hems.Dispatchability.{
  Validation, Contract, not_positive, battery_contract, ev_contract, heat_pump_contract,
  pv_contract, controllable_load_contract, bounded, unless_reasons, behind,
}

module _ {W : Type 0} ⦃fl : Float W⦄ where
  -- The contract carries the state and the adapter of the validation that it was made under.
  abbrev pub Carries : Validation → CommandContract W → Type 0
  Carries v c = (c.validation_state ≡ v.state) × (c.adapter_name ≡ v.adapter_name)

  -- The lower bound is at most 0 and the upper one at least 0.
  abbrev pub HasBounds : CommandContract W → Type 0
  HasBounds c =
      (lo : W) × (hi : W) × (c.minimum ≡ some lo)
      × (c.maximum ≡ some hi)
      × (fl.le lo (of_nat 0) ≡ true)
      × (fl.le (of_nat 0) hi ≡ true)

  abbrev pub IsBounded : CommandContract W → Type 0
  IsBounded c = c.value_type ≡ "number" → HasBounds c

  unless_reasons-some :
      (r : List Reason) (b : Option W) (f : W → CommandContract W) (c : CommandContract W)
      (rs : List Reason)
      → unless_reasons r b f ≡ (some c, rs)
      → (x : W) × (b ≡ some x) × (c ≡ f x) × (r ≡ [])
  unless_reasons-some r b f c rs h = ground arith

  bounded-some :
      (r : List Reason) (a b : Option W) (f : W → W → CommandContract W) (c : CommandContract W)
      (rs : List Reason)
      → bounded r a b f ≡ (some c, rs)
      → (x y : W) × (a ≡ some x) × (b ≡ some y) × (c ≡ f x y) × (r ≡ [])
  bounded-some r a b f c rs h = ground arith

  pub battery_contract-Carries :
      (t k : Fields W) (v : Validation) (c : CommandContract W) (rs : List Reason)
      → battery_contract t k v ≡ (some c, rs)
      → Carries v c
  unfolding battery_contract
  battery_contract-Carries t k v c rs h =
      let (x, y, p, q, e, n) = bounded-some _ _ _ _ c rs h in rw e (refl, refl)

  pub ev_contract-Carries :
      (t k : Fields W) (v : Validation) (c : CommandContract W) (rs : List Reason)
      → ev_contract t k v ≡ (some c, rs)
      → Carries v c
  unfolding ev_contract
  ev_contract-Carries t k v c rs h =
      let (x, p, e, n) = unless_reasons-some _ _ _ c rs h in rw e (refl, refl)

  pub heat_pump_contract-Carries :
      (t k : Fields W) (v : Validation) (c : CommandContract W) (rs : List Reason)
      → heat_pump_contract t k v ≡ (some c, rs)
      → Carries v c
  unfolding heat_pump_contract
  heat_pump_contract-Carries t k v c rs h =
      let (x, p, e, n) = unless_reasons-some _ _ _ c rs h in rw e (refl, refl)

  pub pv_contract-Carries :
      (t k : Fields W) (v : Validation) (c : CommandContract W) (rs : List Reason)
      → pv_contract t k v ≡ (some c, rs)
      → Carries v c
  unfolding pv_contract
  pv_contract-Carries t k v c rs h =
      let (x, p, e, n) = unless_reasons-some _ _ _ c rs h in rw e (refl, refl)

  pub controllable_load_contract-Carries :
      (t k : Fields W) (v : Validation) (c : CommandContract W) (rs : List Reason)
      → controllable_load_contract t k v ≡ (some c, rs)
      → Carries v c
  unfolding controllable_load_contract
  controllable_load_contract-Carries t k v c rs h =
      let (x, p, e, n) = unless_reasons-some _ _ _ c rs h in rw e (refl, refl)

  pub behind-some :
      (v : List Reason) (k : Contract W) (c : CommandContract W) (rs : List Reason)
      → behind v k ≡ (some c, rs)
      → k ≡ (some c, k.1)
  behind-some v k c rs h = ground arith

  module _ (ordered : IsOrdered W) where
    open ordered use {le_total, le_refl, le_trans, round_mono, round_int, neg_le, neg_zero}

    positive : (x : W) → not_positive (some x) ≡ false → fl.le (of_nat 0) (fl.round x 4) ≡ true
    positive x h = rw round_int at (round_mono (of_nat 0) x 4 (le_total x (of_nat 0) h))

    negative :
        (x : W) → not_positive (some x) ≡ false → fl.le (fl.round (fl.neg x) 4) (of_nat 0) ≡ true
    negative x h = rw round_int at (
        round_mono (fl.neg x) (of_nat 0) 4
          (rw neg_zero at (neg_le (of_nat 0) x (le_total x (of_nat 0) h))))

    pub battery_contract-IsBounded :
        (t k : Fields W) (v : Validation) (c : CommandContract W) (rs : List Reason)
        → battery_contract t k v ≡ (some c, rs)
        → IsBounded c
    unfolding battery_contract
    battery_contract-IsBounded t k v c rs h =
        let (x, y, p, q, e, n) = bounded-some _ _ _ _ c rs h in
        let n' = rw (p, q) at n in
        let charge : not_positive (some x) ≡ false = ground arith in
        let discharge : not_positive (some y) ≡ false = ground arith in
        rw e λ number.
          (fl.round (fl.neg x) 4, fl.round y 4, refl, refl, negative x charge, positive y discharge)

    pub ev_contract-IsBounded :
        (t k : Fields W) (v : Validation) (c : CommandContract W) (rs : List Reason)
        → ev_contract t k v ≡ (some c, rs)
        → IsBounded c
    unfolding ev_contract
    ev_contract-IsBounded t k v c rs h =
        let (x, p, e, n) = unless_reasons-some _ _ _ c rs h in
        let n' = rw p at n in
        let bound : not_positive (some x) ≡ false = ground arith in
        rw e λ number. (of_nat 0, fl.round x 4, refl, refl, le_refl (of_nat 0), positive x bound)

    pub heat_pump_contract-IsBounded :
        (t k : Fields W) (v : Validation) (c : CommandContract W) (rs : List Reason)
        → heat_pump_contract t k v ≡ (some c, rs)
        → IsBounded c
    unfolding heat_pump_contract
    heat_pump_contract-IsBounded t k v c rs h =
        let (x, p, e, n) = unless_reasons-some _ _ _ c rs h in
        let n' = rw p at n in
        let bound : not_positive (some x) ≡ false = ground arith in
        rw e λ number. (of_nat 0, fl.round x 4, refl, refl, le_refl (of_nat 0), positive x bound)

    pub pv_contract-IsBounded :
        (t k : Fields W) (v : Validation) (c : CommandContract W) (rs : List Reason)
        → pv_contract t k v ≡ (some c, rs)
        → IsBounded c
    unfolding pv_contract
    pv_contract-IsBounded t k v c rs h =
        let (x, p, e, n) = unless_reasons-some _ _ _ c rs h in
        let n' = rw p at n in
        let bound : not_positive (some x) ≡ false = ground arith in
        rw e λ number. (of_nat 0, fl.round x 4, refl, refl, le_refl (of_nat 0), positive x bound)

    pub controllable_load_contract-IsBounded :
        (t k : Fields W) (v : Validation) (c : CommandContract W) (rs : List Reason)
        → controllable_load_contract t k v ≡ (some c, rs)
        → IsBounded c
    unfolding controllable_load_contract
    controllable_load_contract-IsBounded t k v c rs h =
        let (x, p, e, n) = unless_reasons-some _ _ _ c rs h in
        rw e λ number. absurd (cc (ap (λ s. str_eq s "number") number))
