-- ===== src/Modbus/Models/Measure.antt =====
-- services/modbus.py: the points of SunSpec models, in the order of their registers.
use helios_home.Prelude.{List, [], ◌∷◌, some, none}
use helios_home.Modbus.Codec.{
  SunSpecPoint, bitfield32, enum16, int16, sunssf, uint16, uint32, uint64,
}
use helios_home.Modbus.Models.{point}

abbrev pub der_measure_points : List SunSpecPoint
der_measure_points =
    point "ID" uint16 1 none
    ∷ point "L" uint16 1 none
    ∷ point "ACType" enum16 1 none
    ∷ point "St" enum16 1 none
    ∷ point "InvSt" enum16 1 none
    ∷ point "ConnSt" enum16 1 none
    ∷ point "Alrm" bitfield32 2 none
    ∷ point "DERMode" bitfield32 2 none
    ∷ point "W" int16 1 (some "W_SF")
    ∷ point "VA" int16 1 (some "VA_SF")
    ∷ point "Var" int16 1 (some "Var_SF")
    ∷ point "PF" int16 1 (some "PF_SF")
    ∷ point "A" int16 1 (some "A_SF")
    ∷ point "LLV" uint16 1 (some "V_SF")
    ∷ point "LNV" uint16 1 (some "V_SF")
    ∷ point "Hz" uint32 2 (some "Hz_SF")
    ∷ point "TotWhInj" uint64 4 (some "TotWh_SF")
    ∷ point "TotWhAbs" uint64 4 (some "TotWh_SF")
    ∷ point "TotVarhInj" uint64 4 (some "TotVarh_SF")
    ∷ point "TotVarhAbs" uint64 4 (some "TotVarh_SF")
    ∷ point "TmpAmb" int16 1 (some "Tmp_SF")
    ∷ point "TmpCab" int16 1 (some "Tmp_SF")
    ∷ point "TmpSnk" int16 1 (some "Tmp_SF")
    ∷ point "TmpTrns" int16 1 (some "Tmp_SF")
    ∷ point "TmpSw" int16 1 (some "Tmp_SF")
    ∷ point "TmpOt" int16 1 (some "Tmp_SF")
    ∷ point "WL1" int16 1 (some "W_SF")
    ∷ point "VAL1" int16 1 (some "VA_SF")
    ∷ point "VarL1" int16 1 (some "Var_SF")
    ∷ point "PFL1" int16 1 (some "PF_SF")
    ∷ point "AL1" int16 1 (some "A_SF")
    ∷ point "VL1L2" uint16 1 (some "V_SF")
    ∷ point "VL1" uint16 1 (some "V_SF")
    ∷ point "TotWhInjL1" uint64 4 (some "TotWh_SF")
    ∷ point "TotWhAbsL1" uint64 4 (some "TotWh_SF")
    ∷ point "TotVarhInjL1" uint64 4 (some "TotVarh_SF")
    ∷ point "TotVarhAbsL1" uint64 4 (some "TotVarh_SF")
    ∷ point "WL2" int16 1 (some "W_SF")
    ∷ point "VAL2" int16 1 (some "VA_SF")
    ∷ point "VarL2" int16 1 (some "Var_SF")
    ∷ point "PFL2" int16 1 (some "PF_SF")
    ∷ point "AL2" int16 1 (some "A_SF")
    ∷ point "VL2L3" uint16 1 (some "V_SF")
    ∷ point "VL2" uint16 1 (some "V_SF")
    ∷ point "TotWhInjL2" uint64 4 (some "TotWh_SF")
    ∷ point "TotWhAbsL2" uint64 4 (some "TotWh_SF")
    ∷ point "TotVarhInjL2" uint64 4 (some "TotVarh_SF")
    ∷ point "TotVarhAbsL2" uint64 4 (some "TotVarh_SF")
    ∷ point "WL3" int16 1 (some "W_SF")
    ∷ point "VAL3" int16 1 (some "VA_SF")
    ∷ point "VarL3" int16 1 (some "Var_SF")
    ∷ point "PFL3" int16 1 (some "PF_SF")
    ∷ point "AL3" int16 1 (some "A_SF")
    ∷ point "VL3L1" uint16 1 (some "V_SF")
    ∷ point "VL3" uint16 1 (some "V_SF")
    ∷ point "TotWhInjL3" uint64 4 (some "TotWh_SF")
    ∷ point "TotWhAbsL3" uint64 4 (some "TotWh_SF")
    ∷ point "TotVarhInjL3" uint64 4 (some "TotVarh_SF")
    ∷ point "TotVarhAbsL3" uint64 4 (some "TotVarh_SF")
    ∷ point "ThrotPct" uint16 1 none
    ∷ point "ThrotSrc" bitfield32 2 none
    ∷ point "A_SF" sunssf 1 none
    ∷ point "V_SF" sunssf 1 none
    ∷ point "Hz_SF" sunssf 1 none
    ∷ point "W_SF" sunssf 1 none
    ∷ point "PF_SF" sunssf 1 none
    ∷ point "VA_SF" sunssf 1 none
    ∷ point "Var_SF" sunssf 1 none
    ∷ point "TotWh_SF" sunssf 1 none
    ∷ point "TotVarh_SF" sunssf 1 none
    ∷ point "Tmp_SF" sunssf 1 none
    ∷ []
