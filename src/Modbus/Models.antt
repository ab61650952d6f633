-- ===== src/Modbus/Models.antt =====
-- services/modbus.py: how a point is declared. The tables of points are in the child modules.
pub mod Inverter
pub mod Meter
pub mod Storage
pub mod Measure
pub mod Der
pub mod Definitions
use helios_home.Prelude.{ℕ, String, Option}
use helios_home.Modbus.Codec.{SunSpecPoint, PointType}

-- `_point`
abbrev pub point : String → PointType → ℕ → Option String → SunSpecPoint
point name point_type size scale_factor = record {
  name = name;
  point_type = point_type;
  size = size;
  scale_factor = scale_factor;
}
