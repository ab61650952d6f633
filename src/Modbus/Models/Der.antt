-- ===== src/Modbus/Models/Der.antt =====
-- services/modbus.py: the points of SunSpec models, in the order of their registers.
use helios_home.Prelude.{List, [], ◌∷◌, some, none}
use helios_home.Modbus.Codec.{
  SunSpecPoint, bitfield16, bitfield32, enum16, int16, int32, sunssf, uint16, uint32,
}
use helios_home.Modbus.Models.{point}

abbrev pub der_capacity_points : List SunSpecPoint
der_capacity_points =
    point "ID" uint16 1 none
    ∷ point "L" uint16 1 none
    ∷ point "WMaxRtg" uint16 1 (some "W_SF")
    ∷ point "WOvrExtRtg" uint16 1 (some "W_SF")
    ∷ point "WOvrExtRtgPF" uint16 1 (some "PF_SF")
    ∷ point "WUndExtRtg" uint16 1 (some "W_SF")
    ∷ point "WUndExtRtgPF" uint16 1 (some "PF_SF")
    ∷ point "VAMaxRtg" uint16 1 (some "VA_SF")
    ∷ point "VarMaxInjRtg" uint16 1 (some "Var_SF")
    ∷ point "VarMaxAbsRtg" uint16 1 (some "Var_SF")
    ∷ point "WChaRteMaxRtg" uint16 1 (some "W_SF")
    ∷ point "WDisChaRteMaxRtg" uint16 1 (some "W_SF")
    ∷ point "VAChaRteMaxRtg" uint16 1 (some "VA_SF")
    ∷ point "VADisChaRteMaxRtg" uint16 1 (some "VA_SF")
    ∷ point "VNomRtg" uint16 1 (some "V_SF")
    ∷ point "VMaxRtg" uint16 1 (some "V_SF")
    ∷ point "VMinRtg" uint16 1 (some "V_SF")
    ∷ point "AMaxRtg" uint16 1 (some "A_SF")
    ∷ point "PFOvrExtRtg" uint16 1 (some "PF_SF")
    ∷ point "PFUndExtRtg" uint16 1 (some "PF_SF")
    ∷ point "ReactSusceptRtg" uint16 1 (some "S_SF")
    ∷ point "NorOpCatRtg" enum16 1 none
    ∷ point "AbnOpCatRtg" enum16 1 none
    ∷ point "CtrlModes" bitfield32 2 none
    ∷ point "IntIslandCatRtg" bitfield16 1 none
    ∷ point "WMax" uint16 1 (some "W_SF")
    ∷ point "WMaxOvrExt" uint16 1 (some "W_SF")
    ∷ point "WOvrExtPF" uint16 1 (some "PF_SF")
    ∷ point "WMaxUndExt" uint16 1 (some "W_SF")
    ∷ point "WUndExtPF" uint16 1 (some "PF_SF")
    ∷ point "VAMax" uint16 1 (some "VA_SF")
    ∷ point "VarMaxInj" uint16 1 (some "Var_SF")
    ∷ point "VarMaxAbs" uint16 1 (some "Var_SF")
    ∷ point "WChaRteMax" uint16 1 (some "W_SF")
    ∷ point "WDisChaRteMax" uint16 1 (some "W_SF")
    ∷ point "VAChaRteMax" uint16 1 (some "VA_SF")
    ∷ point "VADisChaRteMax" uint16 1 (some "VA_SF")
    ∷ point "VNom" uint16 1 (some "V_SF")
    ∷ point "VMax" uint16 1 (some "V_SF")
    ∷ point "VMin" uint16 1 (some "V_SF")
    ∷ point "AMax" uint16 1 (some "A_SF")
    ∷ point "PFOvrExt" uint16 1 (some "PF_SF")
    ∷ point "PFUndExt" uint16 1 (some "PF_SF")
    ∷ point "IntIslandCat" bitfield16 1 none
    ∷ point "W_SF" sunssf 1 none
    ∷ point "PF_SF" sunssf 1 none
    ∷ point "VA_SF" sunssf 1 none
    ∷ point "Var_SF" sunssf 1 none
    ∷ point "V_SF" sunssf 1 none
    ∷ point "A_SF" sunssf 1 none
    ∷ point "S_SF" sunssf 1 none
    ∷ []

abbrev pub immediate_control_points : List SunSpecPoint
immediate_control_points =
    point "ID" uint16 1 none
    ∷ point "L" uint16 1 none
    ∷ point "Conn_WinTms" uint16 1 none
    ∷ point "Conn_RvrtTms" uint16 1 none
    ∷ point "Conn" enum16 1 none
    ∷ point "WMaxLimPct" uint16 1 (some "WMaxLimPct_SF")
    ∷ point "WMaxLimPct_WinTms" uint16 1 none
    ∷ point "WMaxLimPct_RvrtTms" uint16 1 none
    ∷ point "WMaxLimPct_RmpTms" uint16 1 none
    ∷ point "WMaxLim_Ena" enum16 1 none
    ∷ point "OutPFSet" uint16 1 (some "OutPFSet_SF")
    ∷ point "OutPFSet_WinTms" uint16 1 none
    ∷ point "OutPFSet_RvrtTms" uint16 1 none
    ∷ point "OutPFSet_RmpTms" uint16 1 none
    ∷ point "OutPFSet_Ena" enum16 1 none
    ∷ point "VArWMaxPct" int16 1 (some "VArPct_SF")
    ∷ point "VArMaxPct" int16 1 (some "VArPct_SF")
    ∷ point "VArAvalPct" int16 1 (some "VArPct_SF")
    ∷ point "VArPct_WinTms" uint16 1 none
    ∷ point "VArPct_RvrtTms" uint16 1 none
    ∷ point "VArPct_RmpTms" uint16 1 none
    ∷ point "VArPct_Mod" enum16 1 none
    ∷ point "Conn_RmpTms" uint16 1 none
    ∷ point "WMaxLimPct_SF" sunssf 1 none
    ∷ point "OutPFSet_SF" sunssf 1 none
    ∷ point "VArPct_SF" sunssf 1 none
    ∷ []

abbrev pub der_control_points : List SunSpecPoint
der_control_points =
    point "ID" uint16 1 none
    ∷ point "L" uint16 1 none
    ∷ point "PFWInjEna" enum16 1 none
    ∷ point "PFWInjEnaRvrt" enum16 1 none
    ∷ point "PFWInjRvrtTms" uint32 2 none
    ∷ point "PFWInjRvrtRem" uint32 2 none
    ∷ point "PFWAbsEna" enum16 1 none
    ∷ point "PFWAbsEnaRvrt" enum16 1 none
    ∷ point "PFWAbsRvrtTms" uint32 2 none
    ∷ point "PFWAbsRvrtRem" uint32 2 none
    ∷ point "WMaxLimPctEna" enum16 1 none
    ∷ point "WMaxLimPct" uint16 1 (some "WMaxLimPct_SF")
    ∷ point "WMaxLimPctRvrt" uint16 1 (some "WMaxLimPct_SF")
    ∷ point "WMaxLimPctEnaRvrt" enum16 1 none
    ∷ point "WMaxLimPctRvrtTms" uint32 2 none
    ∷ point "WMaxLimPctRvrtRem" uint32 2 none
    ∷ point "WSetEna" enum16 1 none
    ∷ point "WSetMod" enum16 1 none
    ∷ point "WSet" int32 2 (some "WSet_SF")
    ∷ point "WSetRvrt" int32 2 (some "WSet_SF")
    ∷ point "WSetPct" int16 1 (some "WSetPct_SF")
    ∷ point "WSetPctRvrt" int16 1 (some "WSetPct_SF")
    ∷ point "WSetEnaRvrt" enum16 1 none
    ∷ point "WSetRvrtTms" uint32 2 none
    ∷ point "WSetRvrtRem" uint32 2 none
    ∷ point "VarSetEna" enum16 1 none
    ∷ point "VarSetMod" enum16 1 none
    ∷ point "VarSetPri" enum16 1 none
    ∷ point "VarSet" int32 2 (some "VarSet_SF")
    ∷ point "VarSetRvrt" int32 2 (some "VarSet_SF")
    ∷ point "VarSetPct" int16 1 (some "VarSetPct_SF")
    ∷ point "VarSetPctRvrt" int16 1 (some "VarSetPct_SF")
    ∷ point "VarSetEnaRvrt" enum16 1 none
    ∷ point "VarSetRvrtTms" uint32 2 none
    ∷ point "VarSetRvrtRem" uint32 2 none
    ∷ point "WRmp" uint16 1 none
    ∷ point "WRmpRef" enum16 1 none
    ∷ point "VarRmp" uint16 1 none
    ∷ point "AntiIslEna" enum16 1 none
    ∷ point "PF_SF" sunssf 1 none
    ∷ point "WMaxLimPct_SF" sunssf 1 none
    ∷ point "WSet_SF" sunssf 1 none
    ∷ point "WSetPct_SF" sunssf 1 none
    ∷ point "VarSet_SF" sunssf 1 none
    ∷ point "VarSetPct_SF" sunssf 1 none
    ∷ point "PFWInj.PF" uint16 1 (some "PF_SF")
    ∷ point "PFWInj.Ext" enum16 1 none
    ∷ point "PFWInjRvrt.PF" uint16 1 (some "PF_SF")
    ∷ point "PFWInjRvrt.Ext" enum16 1 none
    ∷ point "PFWAbs.PF" uint16 1 (some "PF_SF")
    ∷ point "PFWAbs.Ext" enum16 1 none
    ∷ point "PFWAbsRvrt.PF" uint16 1 (some "PF_SF")
    ∷ point "PFWAbsRvrt.Ext" enum16 1 none
    ∷ []
