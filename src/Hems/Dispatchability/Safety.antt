-- ===== src/Hems/Dispatchability/Safety.antt =====
-- What has to hold before an asset is called dispatchable, and what its contract then allows.
pub mod Contracts
use helios_home.Prelude.{
  String, Bool, true, false, not, ◌&&◌, Option, none, some, List, [], ◌∷◌, one_of, str_eq, truthy,
  ◌≡◌, refl, arith, ap, Bool-cases, inl, inr, if◌then◌else◌, ◌⊎◌,
}
use helios_home.Prelude.Float.{Float, IsOrdered, of_nat}
use helios_home.Prelude.Json.{Fields, Repr, get, as_bool}
use helios_home.Hems.Models.{
  Reason, CommandContract, Device, no_profile, is_supported_native_dispatch_profile,
  simulation_adapter_name,
}
use helios_home.Hems.Dispatchability.{
  Validation, Contract, validated, not_positive, battery_contract, ev_contract, heat_pump_contract,
  pv_contract, controllable_load_contract, validation_state, build_command_contract,
  assess_dispatchability, graded_contract, bounded, unless_reasons, behind,
  runtime_allowed_device_statuses, blocking_device_statuses, supported_dispatch_asset_types,
}
use helios_home.Hems.Dispatchability.Safety.Contracts.{
  battery_contract-IsBounded, ev_contract-IsBounded, heat_pump_contract-IsBounded,
  pv_contract-IsBounded, controllable_load_contract-IsBounded, Carries, HasBounds, IsBounded,
  battery_contract-Carries, ev_contract-Carries, heat_pump_contract-Carries, pv_contract-Carries,
  controllable_load_contract-Carries, behind-some,
}

-- A validated write path: a native one needs the switch and a registered profile.
abbrev pub IsValidated : Bool → String → Option String → Type 0
IsValidated enabled state adapter =
    ((state ≡ "native")
      × (enabled ≡ true)
      × ((p : String) × (adapter ≡ some p) × (is_supported_native_dispatch_profile p ≡ true)))
    ⊎ ((state ≡ "simulation") × (adapter ≡ some simulation_adapter_name))

abbrev is_open : String → Bool
is_open state = not (str_eq state "native_disabled") && not (str_eq state "unavailable")

-- Without a profile.
abbrev unnamed_validation : Bool → Validation
unnamed_validation sim =
    if sim
    then record { state = "simulation"; adapter_name = some simulation_adapter_name; reasons = [] }
    else record { state = "unavailable"; adapter_name = none; reasons = no_profile ∷ [] }

simulated :
    (sim enabled : Bool)
    → is_open (unnamed_validation sim).state ≡ true
    → IsValidated enabled (unnamed_validation sim).state (unnamed_validation sim).adapter_name
simulated true enabled h = inr (refl, refl)
simulated false enabled h = absurd (cc h)

validated-IsValidated :
    (p : String) (sim enabled : Bool)
    → is_open (validated p sim enabled).state ≡ true
    → IsValidated enabled (validated p sim enabled).state (validated p sim enabled).adapter_name
unfolding validated
validated-IsValidated p sim true h = elim (Bool-cases (truthy p)) [
  | inl named ↦ elim (Bool-cases (is_supported_native_dispatch_profile p)) [
    | inl known ↦ rw (named, known) (inl (refl, refl, (p, refl, known)))
    | inr unknown ↦ absurd (cc (rw (named, unknown) at h))
  ]
  | inr unnamed ↦ rw unnamed (simulated sim true (rw unnamed at h))
]
validated-IsValidated p sim false h = elim (Bool-cases (truthy p)) [
  | inl named ↦ elim (Bool-cases (is_supported_native_dispatch_profile p)) [
    | inl known ↦ absurd (cc (rw (named, known) at h))
    | inr unknown ↦ absurd (cc (rw (named, unknown) at h))
  ]
  | inr unnamed ↦ rw unnamed (simulated sim false (rw unnamed at h))
]

module _ {W : Type 0} ⦃fl : Float W⦄ ⦃rp : Repr W⦄ where
  -- Which contract is built is decided by the type alone; what holds of every kind holds of the result.
  build_ind :
      (P : Validation → CommandContract W → Type 0)
      → ((t k : Fields W) (v : Validation) (c : CommandContract W) (rs : List Reason)
          → battery_contract t k v ≡ (some c, rs)
          → P v c)
      → ((t k : Fields W) (v : Validation) (c : CommandContract W) (rs : List Reason)
          → ev_contract t k v ≡ (some c, rs)
          → P v c)
      → ((t k : Fields W) (v : Validation) (c : CommandContract W) (rs : List Reason)
          → heat_pump_contract t k v ≡ (some c, rs)
          → P v c)
      → ((t k : Fields W) (v : Validation) (c : CommandContract W) (rs : List Reason)
          → pv_contract t k v ≡ (some c, rs)
          → P v c)
      → ((t k : Fields W) (v : Validation) (c : CommandContract W) (rs : List Reason)
          → controllable_load_contract t k v ≡ (some c, rs)
          → P v c)
      → (a : String) (t k e : Fields W) (n : Bool) (c : CommandContract W) (rs : List Reason)
      → build_command_contract a t k e n ≡ (some c, rs)
      → P (validation_state t e n) c
  unfolding build_command_contract
  build_ind P b ev hp pv cl a t k e n c rs h = elim (Bool-cases (str_eq a "battery")) [
    | inl y ↦ b t k _ c _ (behind-some v.reasons _ c rs (rw y at h))
    | inr n1 ↦ elim (Bool-cases (str_eq a "ev_charger")) [
      | inl y ↦ ev t k _ c _ (behind-some v.reasons _ c rs (rw (n1, y) at h))
      | inr n2 ↦ elim (Bool-cases (str_eq a "heat_pump")) [
        | inl y ↦ hp t k _ c _ (behind-some v.reasons _ c rs (rw (n1, n2, y) at h))
        | inr n3 ↦ elim (Bool-cases (str_eq a "pv_inverter")) [
          | inl y ↦ pv t k _ c _ (behind-some v.reasons _ c rs (rw (n1, n2, n3, y) at h))
          | inr n4 ↦ elim (Bool-cases (str_eq a "controllable_load")) [
            | inl y ↦ cl t k _ c _ (behind-some v.reasons _ c rs (rw (n1, n2, n3, n4, y) at h))
            | inr n5 ↦ absurd (cc (rw (n1, n2, n3, n4, n5) at h))
          ]
        ]
      ]
    ]
  ]
    where
      v : Validation
      v = validation_state t e n

  -- Every contract for a number that is built has both bounds, the lower at most 0 and the upper at
  -- least 0: the command 0 is always within them. Floats are assumed ordered.
  pub build_command_contract-HasBounds :
      (ordered : IsOrdered W) (asset_type : String) (telemetry constraints evidence : Fields W)
      (native_writes_enabled : Bool) (c : CommandContract W) (rs : List Reason)
      → build_command_contract asset_type telemetry constraints evidence native_writes_enabled
        ≡ (some c, rs)
      → c.value_type ≡ "number"
      → HasBounds c
  build_command_contract-HasBounds o =
      build_ind (λ v c. IsBounded c) (battery_contract-IsBounded o) (ev_contract-IsBounded o)
        (heat_pump_contract-IsBounded o) (pv_contract-IsBounded o)
        (controllable_load_contract-IsBounded o)

  build-Carries :
      (a : String) (t k e : Fields W) (n : Bool) (c : CommandContract W) (rs : List Reason)
      → build_command_contract a t k e n ≡ (some c, rs)
      → Carries (validation_state t e n) c
  build-Carries =
      build_ind Carries battery_contract-Carries ev_contract-Carries heat_pump_contract-Carries
        pv_contract-Carries controllable_load_contract-Carries

  validation_state-IsValidated :
      (t e : Fields W) (n : Bool)
      → is_open (validation_state t e n).state ≡ true
      → IsValidated n (validation_state t e n).state (validation_state t e n).adapter_name
  unfolding validation_state
  validation_state-IsValidated t e n h = validated-IsValidated _ _ n h

  -- What `dispatchable` stands for: the device is there, visible, monitorable and controllable, its
  -- status and its type are allowed, and its contract names a validated write path.
  abbrev pub IsSafe : Option (Device W) → String → Bool → Option (CommandContract W) → Type 0
  IsSafe device asset_type enabled contract =
      (d : Device W) × (c : CommandContract W) × (device ≡ some d)
      × (contract ≡ some c)
      × (as_bool (get d.capabilities "visible") ≡ true)
      × (as_bool (get d.capabilities "monitorable") ≡ true)
      × (as_bool (get d.capabilities "controllable") ≡ true)
      × (one_of d.primary_status runtime_allowed_device_statuses ≡ true)
      × (one_of asset_type supported_dispatch_asset_types ≡ true)
      × IsValidated enabled c.validation_state c.adapter_name

  graded_contract-dispatchable :
      (d : Device W) (k : Option (CommandContract W)) (rs : List Reason)
      → str_eq (graded_contract d k rs).eligibility "dispatchable" ≡ true
      → (c : CommandContract W) × (k ≡ some c)
        × ((graded_contract d k rs).command_contract ≡ some c)
        × (is_open c.validation_state ≡ true)
        × (one_of d.primary_status runtime_allowed_device_statuses ≡ true)
  unfolding graded_contract
  graded_contract-dispatchable d none rs h = absurd (cc h)
  graded_contract-dispatchable d (some c) rs h =
      elim (Bool-cases (str_eq c.validation_state "native_disabled")) [
        | inl y ↦ absurd (cc (rw y at h))
        | inr n1 ↦ elim (Bool-cases (str_eq c.validation_state "unavailable")) [
          | inl y ↦ absurd (cc (rw (n1, y) at h))
          | inr n2 ↦ elim (Bool-cases (one_of d.primary_status runtime_allowed_device_statuses)) [
            | inl allowed ↦ (c, refl, rw (n1, n2, allowed), rw (n1, n2), allowed)
            | inr denied ↦ absurd (cc (rw (n1, n2, denied) at h))
          ]
        ]
      ]

  -- An asset is called dispatchable only if its device is there, is visible, monitorable and
  -- controllable, has an allowed status, the asset type is supported, and the contract names a
  -- validated write path: the simulation, or a registered profile while native writes are enabled.
  pub assess_dispatchability-IsSafe :
      (device : Option (Device W)) (asset_type : String) (telemetry constraints evidence : Fields W)
      (native_writes_enabled : Bool)
      → (assess_dispatchability device asset_type telemetry constraints evidence
          native_writes_enabled).eligibility
        ≡ "dispatchable"
      → IsSafe device asset_type native_writes_enabled
          (assess_dispatchability device asset_type telemetry constraints evidence
            native_writes_enabled).command_contract
  unfolding assess_dispatchability
  assess_dispatchability-IsSafe none a t k e n h = absurd (cc (ap (λ s. str_eq s "dispatchable") h))
  assess_dispatchability-IsSafe (some d) a t k e n h =
      elim (Bool-cases (as_bool (get d.capabilities "visible"))) [
        | inr hidden ↦ absurd (cc (rw hidden at said))
        | inl visible ↦ elim (Bool-cases (as_bool (get d.capabilities "monitorable"))) [
          | inr unread ↦ absurd (cc (rw (visible, unread) at said))
          | inl read ↦ elim (Bool-cases (one_of d.primary_status blocking_device_statuses)) [
            | inl blocked ↦ absurd (cc (rw (visible, read, blocked) at said))
            | inr fine ↦ elim (Bool-cases (one_of a supported_dispatch_asset_types)) [
              | inr foreign ↦ absurd (cc (rw (visible, read, fine, foreign) at said))
              | inl known ↦ elim (Bool-cases (as_bool (get d.capabilities "controllable"))) [
                | inr uncontrolled ↦
                    absurd (cc (rw (visible, read, fine, known, uncontrolled) at said))
                | inl controlled ↦
                    let (c, built, given, open_state, allowed) =
                      graded_contract-dispatchable d k'.0 k'.1
                        (rw (visible, read, fine, known, controlled) at said) in
                    let (state, adapter) = build-Carries a t k e n c k'.1 (λ i. (built i, k'.1)) in
                    (
                      d,
                      c,
                      refl,
                      rw (visible, read, fine, known, controlled) given,
                      visible,
                      read,
                      controlled,
                      allowed,
                      known,
                      rw (state, adapter)
                          (validation_state-IsValidated t e n (rw state at open_state)),
                    )
              ]
            ]
          ]
        ]
      ]
    where
      said : str_eq (assess_dispatchability (some d) a t k e n).eligibility "dispatchable" ≡ true
      said = ap (λ s. str_eq s "dispatchable") h

      k' : Contract W
      k' = build_command_contract a t k e n
