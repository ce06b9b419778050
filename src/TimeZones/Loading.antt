-- ===== src/TimeZones/Loading.antt =====
-- System/TimeZoneInfo.cpp. The JSON library's reading of the database is a parameter: its zones with the
-- members that the loader asks for.
use nuke.Base.{ℕ, Bool, List, [], ◌∷◌}
use nuke.Base.Memory.{index}
use nuke.Base.Result.{Result, ok, ◌>>=◌}
use nuke.Text.{split}
use nuke.Text.Numbers.{stoi}
use nuke.TimeSpan.{TimeSpan, from_time}

-- The texts of a zone's members. A rule's dates are read and dropped.
pub record JsonZone : Type 0 where
  pub id : List ℕ
  pub display_name : List ℕ
  pub daylight_name : List ℕ
  pub base_utc_offset : List ℕ
  pub supports_daylight_saving_time : Bool

-- TimeZoneInfoInternals. The standard name is the display name's text.
pub record TimeZoneInfo : Type 0 where
  pub id : List ℕ
  pub display_name : List ℕ
  pub standard_display_name : List ℕ
  pub daylight_display_name : List ℕ
  pub base_utc_offset : TimeSpan
  pub supports_daylight_saving_time : Bool

-- "h:m:s". The sign of the hour is not that of the minute and the second.
unfoldable pub parse_offset : List ℕ → Result TimeSpan
parse_offset text = do
  let parts = split text (b':' ∷ [])
  hour_text ← index parts 0
  hour ← stoi hour_text
  minute_text ← index parts 1
  minute ← stoi minute_text
  second_text ← index parts 2
  second ← stoi second_text
  from_time hour minute second

unfoldable pub time_zone_info_of : JsonZone → Result TimeZoneInfo
time_zone_info_of zone = do
  offset ← parse_offset zone.base_utc_offset
  ok (record {
    id = zone.id;
    display_name = zone.display_name;
    standard_display_name = zone.display_name;
    daylight_display_name = zone.daylight_name;
    base_utc_offset = offset;
    supports_daylight_saving_time = zone.supports_daylight_saving_time;
  })

unfoldable pub collect_infos : List JsonZone → Result (List TimeZoneInfo)
collect_infos [] = ok []
collect_infos (zone ∷ zones) =
    time_zone_info_of zone >>= (λ info. collect_infos zones >>= (λ infos. ok (info ∷ infos)))

-- _loadTimeZoneInfos, which returns an empty list in place of what it collected.
unfoldable pub load_time_zone_infos : List JsonZone → Result (List TimeZoneInfo)
load_time_zone_infos zones = collect_infos zones >>= (λ all_infos. ok [])

-- GetSystemTimeZones, which returns what was loaded when the program started.
unfoldable pub get_system_time_zones : (database : List JsonZone) → Result (List TimeZoneInfo)
get_system_time_zones database = load_time_zone_infos database
