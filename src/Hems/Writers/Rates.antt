-- ===== src/Hems/Writers/Rates.antt =====
-- The rates that a storage is set to.
use helios_home.Prelude.{◌≡◌, ◌⊎◌, true}
use helios_home.Prelude.Float.{Float, of_nat}
use helios_home.Hems.Writers.{Setpoint}

module _ {W : Type 0} ⦃fl : Float W⦄ where
  abbrev pub IsPercent : W → Type 0
  IsPercent x = (fl.le (of_nat 0) x ≡ true) × (fl.le x (of_nat 100) ≡ true)

  -- What a storage may be told: rates between 0 and 100 percent, a mode that allows what has a rate, and
  -- never both directions at once.
  abbrev pub IsConsistent : Setpoint W → Type 0
  IsConsistent p =
      IsPercent p.discharge_pct
      × IsPercent p.charge_pct
      × (((p.storage_mode ≡ 2) × (p.charge_pct ≡ of_nat 0))
          ⊎ (((p.storage_mode ≡ 1) × (p.discharge_pct ≡ of_nat 0))
              ⊎ ((p.storage_mode ≡ 0)
                  × ((p.discharge_pct ≡ of_nat 0) × (p.charge_pct ≡ of_nat 0)))))
