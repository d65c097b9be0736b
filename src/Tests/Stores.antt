-- ===== src/Tests/Stores.antt =====
-- Groups, aliases, locations and the history, at concrete data.
use echonet_list.Base.{◌≡◌, ◌≢◌, ◌⊎◌, refl, true, false, ◌&&◌, ◌||◌, [], ◌∷◌, some, ok, err, any}
use echonet_list.Base.Int.{pos}
use echonet_list.Base.Keys.{Text, text_eq}
use echonet_list.Base.Maps.{lookup}
use echonet_list.Handler.Identifiers.{Device, device_key, specifier, hex4, hex_digit, dec_byte}
use echonet_list.EchonetLite.Object.{class_code, instance_code}
use echonet_list.Handler.Aliases.{
  DeviceAliases, id_not_found, find_aliases_by_id_string, delete_by_id_string,
}
use echonet_list.Handler.Aliases.Laws.{delete_by_id_string_lem}
use echonet_list.Handler.History.{
  DeviceHistoryEntry, HistoryQuery, HistoryStore, PropertyValue, notification, origin_set,
  settable_entries, non_settable_entries, record_entry, query, is_duplicate_notification,
  new_history_store,
}
use echonet_list.Handler.History.Order.{is_recent, is_that_set, is_duplicate_notification-any}
use echonet_list.Handler.History.Laws.{
  IsBounded, new_history_store-IsBounded, record_entry-IsBounded, query-record_entry_settable,
}

abbrev id_1 : Text
id_1 = 49 ∷ []

-- "tv"
abbrev tv : Text
tv = 116 ∷ 118 ∷ []

abbrev aliases : DeviceAliases
aliases = (tv, id_1) ∷ []

delete_by_id_string_lem_example :
    ((find_aliases_by_id_string id_1 aliases ≡ [])
      × (delete_by_id_string id_1 aliases ≡ err (id_not_found id_1)))
    ⊎ ((find_aliases_by_id_string id_1 aliases ≢ [])
        × ((a' : DeviceAliases) × (delete_by_id_string id_1 aliases ≡ ok a')
            × (find_aliases_by_id_string id_1 a' ≡ [])
            × ((other : Text)
                → id_1 ≢ other
                → find_aliases_by_id_string other a' ≡ find_aliases_by_id_string other aliases)))
delete_by_id_string_lem_example = delete_by_id_string_lem id_1 aliases

abbrev lamp : Device
lamp = record { ip = id_1; eoj = 0x029101 }

abbrev on : PropertyValue
on = record { edt = id_1; string = tv; number = some (pos 1) }

abbrev set_on : DeviceHistoryEntry
set_on = record {
  timestamp = 20;
  device = some lamp;
  epc = 0x80;
  value = on;
  origin = origin_set;
  settable = true;
}

abbrev told : DeviceHistoryEntry
told = record set_on { timestamp = 21; origin = notification; settable = false }

abbrev history : HistoryStore
history = record {
  per_device_settable_limit = 1;
  per_device_limit = 1;
  settable_data = (device_key lamp, set_on ∷ []) ∷ [];
  non_settable_data = (device_key lamp, told ∷ []) ∷ [];
}

abbrev settable_query : HistoryQuery
settable_query = record { limit = pos 5; settable_only = true }

is_duplicate_notification-any_example : is_duplicate_notification lamp 0x80 on 2 22 history ≡ (
    any
      (λ e. is_recent 22 2 e && is_that_set 0x80 on e)
      (settable_entries (device_key lamp) history)
    || any
        (λ e. is_recent 22 2 e && is_that_set 0x80 on e)
        (non_settable_entries (device_key lamp) history))
unfolding settable_entries non_settable_entries lookup device_key specifier instance_code hex4
    hex_digit class_code dec_byte
is_duplicate_notification-any_example =
    is_duplicate_notification-any lamp 0x80 on 2 22 history (tt, tt) (tt, tt)

abbrev no_limits : HistoryStore
no_limits =
    new_history_store
      (record { per_device_settable_limit = pos 1; per_device_non_settable_limit = pos 0 })

record_entry-IsBounded_example : IsBounded (record_entry set_on no_limits)
record_entry-IsBounded_example = record_entry-IsBounded set_on no_limits (
    new_history_store-IsBounded
      (record { per_device_settable_limit = pos 1; per_device_non_settable_limit = pos 0 }))

query-record_entry_settable_example :
    query lamp settable_query (record_entry told history) ≡ query lamp settable_query history
query-record_entry_settable_example =
    query-record_entry_settable told lamp settable_query history refl refl
