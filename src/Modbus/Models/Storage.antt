-- ===== src/Modbus/Models/Storage.antt =====
-- services/modbus.py: the points of SunSpec models, in the order of their registers.
use helios_home.Prelude.{List, [], ◌∷◌, some, none}
use helios_home.Modbus.Codec.{SunSpecPoint, bitfield16, enum16, int16, sunssf, uint16}
use helios_home.Modbus.Models.{point}

abbrev pub storage_basic_points : List SunSpecPoint
storage_basic_points =
    point "ID" uint16 1 none
    ∷ point "L" uint16 1 none
    ∷ point "WChaMax" uint16 1 (some "WChaMax_SF")
    ∷ point "WChaGra" uint16 1 (some "WChaDisChaGra_SF")
    ∷ point "WDisChaGra" uint16 1 (some "WChaDisChaGra_SF")
    ∷ point "StorCtl_Mod" bitfield16 1 none
    ∷ point "VAChaMax" uint16 1 (some "VAChaMax_SF")
    ∷ point "MinRsvPct" uint16 1 (some "MinRsvPct_SF")
    ∷ point "ChaState" uint16 1 (some "ChaState_SF")
    ∷ point "StorAval" uint16 1 (some "StorAval_SF")
    ∷ point "InBatV" uint16 1 (some "InBatV_SF")
    ∷ point "ChaSt" enum16 1 none
    ∷ point "OutWRte" int16 1 (some "InOutWRte_SF")
    ∷ point "InWRte" int16 1 (some "InOutWRte_SF")
    ∷ point "InOutWRte_WinTms" uint16 1 none
    ∷ point "InOutWRte_RvrtTms" uint16 1 none
    ∷ point "InOutWRte_RmpTms" uint16 1 none
    ∷ point "ChaGriSet" enum16 1 none
    ∷ point "WChaMax_SF" sunssf 1 none
    ∷ point "WChaDisChaGra_SF" sunssf 1 none
    ∷ point "VAChaMax_SF" sunssf 1 none
    ∷ point "MinRsvPct_SF" sunssf 1 none
    ∷ point "ChaState_SF" sunssf 1 none
    ∷ point "StorAval_SF" sunssf 1 none
    ∷ point "InBatV_SF" sunssf 1 none
    ∷ point "InOutWRte_SF" sunssf 1 none
    ∷ []

abbrev pub storage_capacity_points : List SunSpecPoint
storage_capacity_points =
    point "ID" uint16 1 none
    ∷ point "L" uint16 1 none
    ∷ point "WHRtg" uint16 1 (some "WH_SF")
    ∷ point "WHAvail" uint16 1 (some "WH_SF")
    ∷ point "SoC" uint16 1 (some "Pct_SF")
    ∷ point "SoH" uint16 1 (some "Pct_SF")
    ∷ point "Sta" enum16 1 none
    ∷ point "WH_SF" sunssf 1 none
    ∷ point "Pct_SF" sunssf 1 none
    ∷ []

abbrev pub der_nameplate_points : List SunSpecPoint
der_nameplate_points =
    point "ID" uint16 1 none
    ∷ point "L" uint16 1 none
    ∷ point "DERTyp" enum16 1 none
    ∷ point "WRtg" uint16 1 (some "WRtg_SF")
    ∷ point "WRtg_SF" sunssf 1 none
    ∷ []
