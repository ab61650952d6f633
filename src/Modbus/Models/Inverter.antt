-- ===== src/Modbus/Models/Inverter.antt =====
-- services/modbus.py: the points of SunSpec models, in the order of their registers.
use helios_home.Prelude.{List, [], ◌∷◌, some, none}
use helios_home.Modbus.Codec.{SunSpecPoint, acc32, enum16, int16, sunssf, uint16}
use helios_home.Modbus.Models.{point}

abbrev pub inverter_points : List SunSpecPoint
inverter_points =
    point "ID" uint16 1 none
    ∷ point "L" uint16 1 none
    ∷ point "A" uint16 1 (some "A_SF")
    ∷ point "AphA" uint16 1 (some "A_SF")
    ∷ point "AphB" uint16 1 (some "A_SF")
    ∷ point "AphC" uint16 1 (some "A_SF")
    ∷ point "A_SF" sunssf 1 none
    ∷ point "PPVphAB" uint16 1 (some "V_SF")
    ∷ point "PPVphBC" uint16 1 (some "V_SF")
    ∷ point "PPVphCA" uint16 1 (some "V_SF")
    ∷ point "PhVphA" uint16 1 (some "V_SF")
    ∷ point "PhVphB" uint16 1 (some "V_SF")
    ∷ point "PhVphC" uint16 1 (some "V_SF")
    ∷ point "V_SF" sunssf 1 none
    ∷ point "W" int16 1 (some "W_SF")
    ∷ point "W_SF" sunssf 1 none
    ∷ point "Hz" uint16 1 (some "Hz_SF")
    ∷ point "Hz_SF" sunssf 1 none
    ∷ point "VA" int16 1 (some "VA_SF")
    ∷ point "VA_SF" sunssf 1 none
    ∷ point "VAr" int16 1 (some "VAr_SF")
    ∷ point "VAr_SF" sunssf 1 none
    ∷ point "PF" int16 1 (some "PF_SF")
    ∷ point "PF_SF" sunssf 1 none
    ∷ point "WH" acc32 2 (some "WH_SF")
    ∷ point "WH_SF" sunssf 1 none
    ∷ point "DCA" uint16 1 (some "DCA_SF")
    ∷ point "DCA_SF" sunssf 1 none
    ∷ point "DCV" uint16 1 (some "DCV_SF")
    ∷ point "DCV_SF" sunssf 1 none
    ∷ point "DCW" int16 1 (some "DCW_SF")
    ∷ point "DCW_SF" sunssf 1 none
    ∷ point "TmpCab" int16 1 (some "Tmp_SF")
    ∷ point "TmpSnk" int16 1 (some "Tmp_SF")
    ∷ point "TmpTrns" int16 1 (some "Tmp_SF")
    ∷ point "TmpOt" int16 1 (some "Tmp_SF")
    ∷ point "Tmp_SF" sunssf 1 none
    ∷ point "St" enum16 1 none
    ∷ []
