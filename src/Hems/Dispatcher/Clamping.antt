-- ===== src/Hems/Dispatcher/Clamping.antt =====
-- A clamped command is within its contract.
use helios_home.Prelude.{
  ◌≡◌, subst, String, true, some, Bool-cases, inl, inr, Result, ok, err, ◌>>=◌,
}
use helios_home.Prelude.Float.{Float, IsOrdered, fmax, fmin}
use helios_home.Prelude.Json.{Fields, Repr, real, field, end}
use helios_home.Hems.Models.{CommandContract}
use helios_home.Hems.Dispatcher.{
  Failure, CanonicalAsset, PlannedInterval, as_float, within_contract, clamped_command,
  first_command,
}

module _ {W : Type 0} ⦃fl : Float W⦄ where
  -- The command sets one number, between the two bounds.
  abbrev pub IsWithin : W → W → Fields W → Type 0
  IsWithin lo hi command =
      (key : String) × (v : W) × (command ≡ field key (real v) end)
      × (fl.le lo v ≡ true)
      × (fl.le v hi ≡ true)

module _ {W : Type 0} ⦃fl : Float W⦄ (ord : IsOrdered W) where
  fmax-le : (a b c : W) → fl.le a c ≡ true → fl.le b c ≡ true → fl.le (fmax a b) c ≡ true
  fmax-le a b c p q = elim (Bool-cases (fl.le b a)) [ inl le_a ↦ rw le_a p | inr gt_a ↦ rw gt_a q ]

  le-fmax_left : (a b : W) → fl.le a (fmax a b) ≡ true
  le-fmax_left a b = elim (Bool-cases (fl.le b a)) [
    | inl le_a ↦ rw le_a (ord.le_refl a)
    | inr gt_a ↦ rw gt_a (ord.le_total b a gt_a)
  ]

  fmin-le_left : (a b : W) → fl.le (fmin a b) a ≡ true
  fmin-le_left a b = elim (Bool-cases (fl.le a b)) [
    | inl le_b ↦ rw le_b (ord.le_refl a)
    | inr gt_b ↦ rw gt_b (ord.le_total a b gt_b)
  ]

  module _ (lo hi : W) (ordered : fl.le lo hi ≡ true) (lo_rounded : fl.round lo 4 ≡ lo)
      (hi_rounded : fl.round hi 4 ≡ hi) where
    rounded-IsWithin :
        (value : W)
        → (fl.le lo (fl.round (fmax lo (fmin hi value)) 4) ≡ true)
          × (fl.le (fl.round (fmax lo (fmin hi value)) 4) hi ≡ true)
    rounded-IsWithin value = (
      subst (λ x. fl.le x (fl.round (fmax lo (fmin hi value)) 4) ≡ true) lo_rounded
          (ord.round_mono lo _ 4 (le-fmax_left lo _)),
      subst (λ x. fl.le (fl.round (fmax lo (fmin hi value)) 4) x ≡ true) hi_rounded
          (ord.round_mono _ hi 4 (fmax-le lo _ hi ordered (fmin-le_left hi value))),
    )

    number-IsWithin :
        (key : String) (f : Result Failure W) (command : Fields W)
        → (f >>= λ value. ok (field key (real (fl.round (fmax lo (fmin hi value)) 4)) end))
          ≡ ok command
        → IsWithin lo hi command
    number-IsWithin key (ok value) command made =
        let is : command ≡ field key (real (fl.round (fmax lo (fmin hi value)) 4)) end = cc in
        let bounds = rounded-IsWithin value in
        (key, fl.round (fmax lo (fmin hi value)) 4, is, bounds.0, bounds.1)
    number-IsWithin key (err e) command made = absurd (cc made)

-- Where the contract is for a number between two ordered bounds of at most four decimals, a command
-- that is made sets one number, between the bounds. Floats are assumed ordered.
pub clamped_command-IsWithin :
    {W : Type 0} ⦃fl : Float W⦄ ⦃r : Repr W⦄ (ord : IsOrdered W) (asset : CanonicalAsset W)
    (interval : PlannedInterval W) (contract : CommandContract W) (lo hi : W) (command : Fields W)
    → asset.command_contract ≡ some contract
    → contract.value_type ≡ "number"
    → contract.minimum ≡ some lo
    → contract.maximum ≡ some hi
    → fl.le lo hi ≡ true
    → fl.round lo 4 ≡ lo
    → fl.round hi 4 ≡ hi
    → clamped_command asset interval ≡ ok command
    → IsWithin lo hi command
unfolding clamped_command within_contract
clamped_command-IsWithin ord asset interval contract lo hi command has number low high ordered
      lo_rounded hi_rounded made =
    elim interval.command as (λ c. first_command asset c ≡ ok command → IsWithin lo hi command) [
      | end ↦ λ e. absurd (cc e)
      | field key raw rest ↦ λ e.
          number-IsWithin ord lo hi ordered lo_rounded hi_rounded key (as_float raw) command
            (rw (has, number, low, high) at e)
    ]
      made
