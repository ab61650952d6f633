-- ===== src/Modbus/Models/Definitions.antt =====
-- services/modbus.py: the points of each model, and that they fit together.
use helios_home.Modbus.Models.Inverter.{inverter_points}
use helios_home.Modbus.Models.Meter.{meter_scaled_points, meter_float_points}
use helios_home.Modbus.Models.Storage.{
  storage_basic_points, storage_capacity_points, der_nameplate_points,
}
use helios_home.Modbus.Models.Measure.{der_measure_points}
use helios_home.Modbus.Models.Der.{
  der_capacity_points, immediate_control_points, der_control_points,
}
use helios_home.Prelude.{
  Bool-cases, inl, inr, subst, ℕ, ◌≡◌, refl, String, Bool, true, false, not, ◌&&◌, ◌||◌, Option,
  none, some, List, [], ◌∷◌, str_eq, ◌==◌, if◌then◌else◌,
}
use helios_home.Modbus.Codec.{
  SunSpecPoint, PointType, int16, uint16, enum16, bitfield16, bitfield32, uint32, acc32, int32,
  uint64, float32, sunssf, unsupported,
}

abbrev pub model_point_definitions : List (ℕ × List SunSpecPoint)
model_point_definitions =
    (101, inverter_points)
    ∷ (102, inverter_points)
    ∷ (103, inverter_points)
    ∷ (120, der_nameplate_points)
    ∷ (123, immediate_control_points)
    ∷ (124, storage_basic_points)
    ∷ (201, meter_scaled_points)
    ∷ (202, meter_scaled_points)
    ∷ (203, meter_scaled_points)
    ∷ (204, meter_scaled_points)
    ∷ (211, meter_float_points)
    ∷ (212, meter_float_points)
    ∷ (213, meter_float_points)
    ∷ (701, der_measure_points)
    ∷ (702, der_capacity_points)
    ∷ (704, der_control_points)
    ∷ (713, storage_capacity_points)
    ∷ []

-- `MODEL_POINT_DEFINITIONS.get(model_id)`
unfoldable pub definitions_of : ℕ → List (ℕ × List SunSpecPoint) → Option (List SunSpecPoint)
definitions_of model_id [] = none
definitions_of model_id ((id, points) ∷ rest) =
    if id == model_id then some points else definitions_of model_id rest

-- The registers that the decoder takes for a point of a type; 0 where it has no decoder.
abbrev pub registers_for : PointType → ℕ
registers_for int16 = 1
registers_for uint16 = 1
registers_for enum16 = 1
registers_for bitfield16 = 1
registers_for sunssf = 1
registers_for bitfield32 = 2
registers_for uint32 = 2
registers_for acc32 = 2
registers_for int32 = 2
registers_for float32 = 2
registers_for uint64 = 4
registers_for (unsupported _) = 0

-- A point of the name is in the list and holds a scale factor.
abbrev pub is_scale : String → List SunSpecPoint → Bool
is_scale name [] = false
is_scale name (p ∷ ps) = (str_eq p.name name && has_type p.point_type) || is_scale name ps
  where
    has_type : PointType → Bool
    has_type sunssf = true
    has_type _ = false

abbrev pub is_named : String → List SunSpecPoint → Bool
is_named name [] = false
is_named name (p ∷ ps) = str_eq p.name name || is_named name ps

abbrev scale_is_there : Option String → List SunSpecPoint → Bool
scale_is_there none points = true
scale_is_there (some name) points = is_scale name points

-- Each point has the size that its type takes, its scale factor is a point of the same model, and no
-- point after it has its name.
abbrev pub are_sound : List SunSpecPoint → List SunSpecPoint → Bool
are_sound all [] = true
are_sound all (p ∷ ps) =
    ((p.size == registers_for p.point_type)
      && (scale_is_there p.scale_factor all && not (is_named p.name ps)))
    && are_sound all ps

abbrev pub all_sound : List (ℕ × List SunSpecPoint) → Bool
all_sound [] = true
all_sound ((id, points) ∷ rest) = are_sound points points && all_sound rest

all_sound_lem : all_sound model_point_definitions ≡ true
all_sound_lem = refl

definitions_of_sound_among :
    (model_id : ℕ) (tables : List (ℕ × List SunSpecPoint)) (points : List SunSpecPoint)
    → all_sound tables ≡ true
    → definitions_of model_id tables ≡ some points
    → are_sound points points ≡ true
unfolding definitions_of
definitions_of_sound_among model_id [] points sound found = absurd (cc found)
definitions_of_sound_among model_id ((id, table) ∷ rest) points sound found =
    elim (Bool-cases (are_sound table table)) [
      | inl table_sound ↦ elim (Bool-cases (id == model_id)) [
        | inl this ↦
            let same : table ≡ points = cc (rw this at found) in
            subst (λ t. are_sound t t ≡ true) same table_sound
        | inr other ↦
            definitions_of_sound_among model_id rest points (rw table_sound at sound)
              (rw other at found)
      ]
      | inr unsound ↦ absurd (cc (rw unsound at sound))
    ]

-- Whatever table is found for a model, each of its points has as many registers as the decoder of
-- its type takes, names a scale factor only if the table has one of that name, of the type of scale
-- factors, and has a name that no other point has.
pub definitions_of_sound :
    (model_id : ℕ) (points : List SunSpecPoint)
    → definitions_of model_id model_point_definitions ≡ some points
    → are_sound points points ≡ true
definitions_of_sound model_id points found =
    definitions_of_sound_among model_id model_point_definitions points all_sound_lem found
