-- ===== src/Store/Summaries.antt =====
-- store/sqlite.go: the reads and upserts of the four summary tables. A period is `hour_start` or
-- `day_date`, a time that is written as a text.
use pocket_settlement_monito.Prelude.{String}
use pocket_settlement_monito.Prelude.Eq.{nat_eq, string_eq, pair_eq}
use pocket_settlement_monito.Prelude.Exec.{Exec}
use pocket_settlement_monito.Store.Models.{Time, rfc3339, Totals}
use pocket_settlement_monito.Store.Tables.{Tables, upsert, get_summary}
use pocket_settlement_monito.Store.Db.{Db, query, execute}

abbrev pub hourly_service_of : Time → String → Tables → Totals
hourly_service_of hour service t = get_summary (rfc3339 hour, service) t.hourly_summaries_service

abbrev pub hourly_network_of : Time → Tables → Totals
hourly_network_of hour t = get_summary (rfc3339 hour) t.hourly_summaries_network

abbrev pub daily_service_of : Time → String → Tables → Totals
daily_service_of day service t = get_summary (rfc3339 day, service) t.daily_summaries_service

abbrev pub daily_network_of : Time → Tables → Totals
daily_network_of day t = get_summary (rfc3339 day) t.daily_summaries_network

abbrev pub set_hourly_service : Time → String → Totals → Tables → Tables
set_hourly_service hour service v t = record t {
  hourly_summaries_service = upsert (rfc3339 hour, service) v t.hourly_summaries_service;
}

abbrev pub set_hourly_network : Time → Totals → Tables → Tables
set_hourly_network hour v t = record t {
  hourly_summaries_network = upsert (rfc3339 hour) v t.hourly_summaries_network;
}

abbrev pub set_daily_service : Time → String → Totals → Tables → Tables
set_daily_service day service v t = record t {
  daily_summaries_service = upsert (rfc3339 day, service) v t.daily_summaries_service;
}

abbrev pub set_daily_network : Time → Totals → Tables → Tables
set_daily_network day v t = record t {
  daily_summaries_network = upsert (rfc3339 day) v t.daily_summaries_network;
}

unfoldable pub get_hourly_summary_service : Time → String → Exec Db Totals
get_hourly_summary_service hour service = query (hourly_service_of hour service)

unfoldable pub get_hourly_summary_network : Time → Exec Db Totals
get_hourly_summary_network hour = query (hourly_network_of hour)

unfoldable pub get_daily_summary_service : Time → String → Exec Db Totals
get_daily_summary_service day service = query (daily_service_of day service)

unfoldable pub get_daily_summary_network : Time → Exec Db Totals
get_daily_summary_network day = query (daily_network_of day)

unfoldable pub upsert_hourly_summary_service : Time → String → Totals → Exec Db Unit
upsert_hourly_summary_service hour service v = execute (set_hourly_service hour service v)

unfoldable pub upsert_hourly_summary_network : Time → Totals → Exec Db Unit
upsert_hourly_summary_network hour v = execute (set_hourly_network hour v)

unfoldable pub upsert_daily_summary_service : Time → String → Totals → Exec Db Unit
upsert_daily_summary_service day service v = execute (set_daily_service day service v)

unfoldable pub upsert_daily_summary_network : Time → Totals → Exec Db Unit
upsert_daily_summary_network day v = execute (set_daily_network day v)
