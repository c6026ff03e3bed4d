-- ===== src/Api/Gps.antt =====
-- src/gps/gps_module.cpp, src/gps/gps_source.cpp and src/gps/gps_state.cpp. The state is a cell
-- under a mutex, the last field of the module; `literal` gives the value of a literal.
use Prim.Native.String.{String}
use skai_edge_native.Common.{
  ℕ, List, Option, none, some, is_some, Bool, true, false, not, ◌||◌, eqb, if◌then◌else◌, codes, ℤ,
  pos,
}
use skai_edge_native.Config.{GpsConfig}

-- `GpsFix`.
pub record GpsFix (F : Type 0) : Type 0 where
  pub valid : Bool
  pub source : List ℕ
  pub latitude : F
  pub longitude : F
  pub altitude_m : F
  pub hdop : F
  pub satellites_visible : ℤ
  pub satellites_used : ℤ

-- `GpsModule`; the source is its configuration.
pub record GpsModule (F : Type 0) : Type 0 where
  pub gps_source : Option (GpsConfig F)
  pub gps_latest : Option (GpsFix F)

module _ {F : Type 0} (literal : String → F) where
  -- `GpsSource::latest`.
  pub source_latest : GpsConfig F → Option (GpsFix F)
  source_latest config =
      if not config.enabled || not (eqb config.source (codes "fixed"))
      then none
      else some (record {
        valid = true;
        source = codes "fixed";
        latitude = config.latitude;
        longitude = config.longitude;
        altitude_m = config.altitude_m;
        hdop = literal "0.9";
        satellites_visible = pos 12;
        satellites_used = pos 10;
      })

  pub initialize : GpsConfig F → GpsModule F → Bool × GpsModule F
  initialize config m =
      if is_some m.gps_source
      then (false, m)
      else (true, record { gps_source = some config; gps_latest = source_latest config })

module _ {F : Type 0} where
  pub start : GpsModule F → Bool
  start m = is_some m.gps_source

  pub wait : GpsModule F → GpsModule F
  wait m = record { gps_source = none; gps_latest = none }
