-- ===== src/Modbus/Models/Meter.antt =====
-- services/modbus.py: the points of SunSpec models, in the order of their registers.
use helios_home.Prelude.{List, [], ◌∷◌, some, none}
use helios_home.Modbus.Codec.{SunSpecPoint, acc32, float32, int16, sunssf, uint16}
use helios_home.Modbus.Models.{point}

abbrev pub meter_scaled_points : List SunSpecPoint
meter_scaled_points =
    point "ID" uint16 1 none
    ∷ point "L" uint16 1 none
    ∷ point "A" int16 1 (some "A_SF")
    ∷ point "AphA" int16 1 (some "A_SF")
    ∷ point "AphB" int16 1 (some "A_SF")
    ∷ point "AphC" int16 1 (some "A_SF")
    ∷ point "A_SF" sunssf 1 none
    ∷ point "PhV" int16 1 (some "V_SF")
    ∷ point "PhVphA" int16 1 (some "V_SF")
    ∷ point "PhVphB" int16 1 (some "V_SF")
    ∷ point "PhVphC" int16 1 (some "V_SF")
    ∷ point "PPV" int16 1 (some "V_SF")
    ∷ point "PhVphAB" int16 1 (some "V_SF")
    ∷ point "PhVphBC" int16 1 (some "V_SF")
    ∷ point "PhVphCA" int16 1 (some "V_SF")
    ∷ point "V_SF" sunssf 1 none
    ∷ point "Hz" int16 1 (some "Hz_SF")
    ∷ point "Hz_SF" sunssf 1 none
    ∷ point "W" int16 1 (some "W_SF")
    ∷ point "WphA" int16 1 (some "W_SF")
    ∷ point "WphB" int16 1 (some "W_SF")
    ∷ point "WphC" int16 1 (some "W_SF")
    ∷ point "W_SF" sunssf 1 none
    ∷ point "VA" int16 1 (some "VA_SF")
    ∷ point "VAphA" int16 1 (some "VA_SF")
    ∷ point "VAphB" int16 1 (some "VA_SF")
    ∷ point "VAphC" int16 1 (some "VA_SF")
    ∷ point "VA_SF" sunssf 1 none
    ∷ point "VAR" int16 1 (some "VAR_SF")
    ∷ point "VARphA" int16 1 (some "VAR_SF")
    ∷ point "VARphB" int16 1 (some "VAR_SF")
    ∷ point "VARphC" int16 1 (some "VAR_SF")
    ∷ point "VAR_SF" sunssf 1 none
    ∷ point "PF" int16 1 (some "PF_SF")
    ∷ point "PFphA" int16 1 (some "PF_SF")
    ∷ point "PFphB" int16 1 (some "PF_SF")
    ∷ point "PFphC" int16 1 (some "PF_SF")
    ∷ point "PF_SF" sunssf 1 none
    ∷ point "TotWhExp" acc32 2 (some "TotWh_SF")
    ∷ point "TotWhExpPhA" acc32 2 (some "TotWh_SF")
    ∷ point "TotWhExpPhB" acc32 2 (some "TotWh_SF")
    ∷ point "TotWhExpPhC" acc32 2 (some "TotWh_SF")
    ∷ point "TotWhImp" acc32 2 (some "TotWh_SF")
    ∷ point "TotWhImpPhA" acc32 2 (some "TotWh_SF")
    ∷ point "TotWhImpPhB" acc32 2 (some "TotWh_SF")
    ∷ point "TotWhImpPhC" acc32 2 (some "TotWh_SF")
    ∷ point "TotWh_SF" sunssf 1 none
    ∷ []

abbrev pub meter_float_points : List SunSpecPoint
meter_float_points =
    point "ID" uint16 1 none
    ∷ point "L" uint16 1 none
    ∷ point "A" float32 2 none
    ∷ point "AphA" float32 2 none
    ∷ point "AphB" float32 2 none
    ∷ point "AphC" float32 2 none
    ∷ point "PhV" float32 2 none
    ∷ point "PhVphA" float32 2 none
    ∷ point "PhVphB" float32 2 none
    ∷ point "PhVphC" float32 2 none
    ∷ point "PPV" float32 2 none
    ∷ point "PPVphAB" float32 2 none
    ∷ point "PPVphBC" float32 2 none
    ∷ point "PPVphCA" float32 2 none
    ∷ point "Hz" float32 2 none
    ∷ point "W" float32 2 none
    ∷ point "WphA" float32 2 none
    ∷ point "WphB" float32 2 none
    ∷ point "WphC" float32 2 none
    ∷ point "VA" float32 2 none
    ∷ point "VAphA" float32 2 none
    ∷ point "VAphB" float32 2 none
    ∷ point "VAphC" float32 2 none
    ∷ point "VAR" float32 2 none
    ∷ point "VARphA" float32 2 none
    ∷ point "VARphB" float32 2 none
    ∷ point "VARphC" float32 2 none
    ∷ point "PF" float32 2 none
    ∷ point "PFphA" float32 2 none
    ∷ point "PFphB" float32 2 none
    ∷ point "PFphC" float32 2 none
    ∷ point "TotWhExp" float32 2 none
    ∷ point "TotWhExpPhA" float32 2 none
    ∷ point "TotWhExpPhB" float32 2 none
    ∷ point "TotWhExpPhC" float32 2 none
    ∷ point "TotWhImp" float32 2 none
    ∷ point "TotWhImpPhA" float32 2 none
    ∷ point "TotWhImpPhB" float32 2 none
    ∷ point "TotWhImpPhC" float32 2 none
    ∷ []
