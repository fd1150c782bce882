-- ===== src/Client/Answers.antt =====
-- perfkit/connections/pk-connection-dbus.c: what each call of the client makes of the answer, by the
-- `_finish` function of the call.
use perfkit.Prelude.{ℕ, Option, none, some, List, [], ◌∷◌, ◌++◌, map}
use perfkit.Wire.{Bytes}
use perfkit.Bus.{
  Kind, ObjectPath, Argument, int32, boolean, string, object_path, strings, paths, Reply, failure,
  returned, crashed, TimeText, scan_id, scan_name,
}
use perfkit.Listener.{Value, done, flag, number, two_numbers, numbers, text, texts}

-- An error that the client makes itself: its domain is `PK_CONNECTION_DBUS_ERROR` and its code
-- `PK_CONNECTION_DBUS_ERROR_DBUS`, whatever the error of the agent was; it has a message.
pub data ClientError : Type 0 where
  dbus_error : Bytes → ClientError

-- "%s: %s", of the name of an error and its text.
abbrev pub error_message : Bytes → Bytes → Bytes
error_message name message = name ++ (58 ∷ 32 ∷ message)

-- The result of a call: the values that are handed out, an error, an answer of other types, or none.
pub data Finished : Type 0 where
  given : Value → Finished
  failed : ClientError → Finished
  garbled lost : Finished

abbrev pub given_of : Option Value → Finished
given_of none = garbled
given_of (some v) = given v

abbrev pub finish_with : (List Argument → Option Value) → Reply → Finished
finish_with read (failure name message) = failed (dbus_error (error_message name message))
finish_with read (returned args) = given_of (read args)
finish_with read crashed = lost

abbrev pub read_nothing : List Argument → Option Value
read_nothing args = some done

abbrev pub read_flag : List Argument → Option Value
read_flag (boolean x ∷ args) = some (flag x)
read_flag _ = none

abbrev pub read_int : List Argument → Option Value
read_int (int32 n ∷ args) = some (number n)
read_int _ = none

abbrev pub read_two_ints : List Argument → Option Value
read_two_ints (int32 m ∷ int32 n ∷ args) = some (two_numbers m n)
read_two_ints _ = none

-- An id that is not scanned stays 0, a name null.
abbrev pub or_zero : Option ℕ → ℕ
or_zero none = 0
or_zero (some n) = n

abbrev pub read_id : Kind → List Argument → Option Value
read_id kind (object_path p ∷ args) = some (number (or_zero (scan_id kind p)))
read_id kind _ = none

abbrev pub read_ids : Kind → List Argument → Option Value
read_ids kind (paths l ∷ args) = some (numbers (map (λ p. or_zero (scan_id kind p)) l))
read_ids kind _ = none

abbrev pub read_text : List Argument → Option Value
read_text (string s ∷ args) = some (text (some s))
read_text _ = none

abbrev pub read_texts : List Argument → Option Value
read_texts (strings l ∷ args) = some (texts (some l))
read_texts _ = none

abbrev pub read_time : TimeText → List Argument → Option Value
read_time t (string s ∷ args) = some (number (t.from_text s))
read_time t _ = none

abbrev pub read_name : List Argument → Option Value
read_name (object_path p ∷ args) = some (text (scan_name p))
read_name _ = none

-- A null name ends the array for its reader.
abbrev pub scan_names : List ObjectPath → List Bytes
scan_names [] = []
scan_names (p ∷ l) = let rest = scan_names l in elim (scan_name p) [ none ↦ [] | some s ↦ s ∷ rest ]

abbrev pub read_names : List Argument → Option Value
read_names (paths l ∷ args) = some (texts (some (scan_names l)))
read_names _ = none

unfoldable pub plugin_get_copyright_finish : Reply → Finished
plugin_get_copyright_finish = finish_with read_text

unfoldable pub plugin_get_description_finish : Reply → Finished
plugin_get_description_finish = finish_with read_text

unfoldable pub plugin_get_name_finish : Reply → Finished
plugin_get_name_finish = finish_with read_text

unfoldable pub plugin_get_plugin_type_finish : Reply → Finished
plugin_get_plugin_type_finish = finish_with read_int

unfoldable pub plugin_get_version_finish : Reply → Finished
plugin_get_version_finish = finish_with read_text

unfoldable pub source_get_plugin_finish : Reply → Finished
source_get_plugin_finish = finish_with read_name

unfoldable pub manager_add_channel_finish : Reply → Finished
manager_add_channel_finish = finish_with (read_id Kind.channel)

unfoldable pub manager_add_source_finish : Reply → Finished
manager_add_source_finish = finish_with (read_id Kind.source)

unfoldable pub manager_add_subscription_finish : Reply → Finished
manager_add_subscription_finish = finish_with (read_id Kind.subscription)

unfoldable pub manager_get_channels_finish : Reply → Finished
manager_get_channels_finish = finish_with (read_ids Kind.channel)

unfoldable pub manager_get_hostname_finish : Reply → Finished
manager_get_hostname_finish = finish_with read_text

unfoldable pub manager_get_plugins_finish : Reply → Finished
manager_get_plugins_finish = finish_with read_names

unfoldable pub manager_get_sources_finish : Reply → Finished
manager_get_sources_finish = finish_with (read_ids Kind.source)

unfoldable pub manager_get_subscriptions_finish : Reply → Finished
manager_get_subscriptions_finish = finish_with (read_ids Kind.subscription)

unfoldable pub manager_get_version_finish : Reply → Finished
manager_get_version_finish = finish_with read_text

unfoldable pub manager_ping_finish : TimeText → Reply → Finished
manager_ping_finish t = finish_with (read_time t)

unfoldable pub manager_remove_channel_finish : Reply → Finished
manager_remove_channel_finish = finish_with read_flag

unfoldable pub manager_remove_source_finish : Reply → Finished
manager_remove_source_finish = finish_with read_nothing

unfoldable pub manager_remove_subscription_finish : Reply → Finished
manager_remove_subscription_finish = finish_with read_flag

unfoldable pub channel_add_source_finish : Reply → Finished
channel_add_source_finish = finish_with read_nothing

unfoldable pub channel_get_args_finish : Reply → Finished
channel_get_args_finish = finish_with read_texts

unfoldable pub channel_get_created_at_finish : TimeText → Reply → Finished
channel_get_created_at_finish t = finish_with (read_time t)

unfoldable pub channel_get_env_finish : Reply → Finished
channel_get_env_finish = finish_with read_texts

unfoldable pub channel_get_exit_status_finish : Reply → Finished
channel_get_exit_status_finish = finish_with read_int

unfoldable pub channel_get_kill_pid_finish : Reply → Finished
channel_get_kill_pid_finish = finish_with read_flag

unfoldable pub channel_get_pid_finish : Reply → Finished
channel_get_pid_finish = finish_with read_int

unfoldable pub channel_get_pid_set_finish : Reply → Finished
channel_get_pid_set_finish = finish_with read_flag

unfoldable pub channel_get_sources_finish : Reply → Finished
channel_get_sources_finish = finish_with (read_ids Kind.source)

unfoldable pub channel_get_state_finish : Reply → Finished
channel_get_state_finish = finish_with read_int

unfoldable pub channel_get_target_finish : Reply → Finished
channel_get_target_finish = finish_with read_text

unfoldable pub channel_get_working_dir_finish : Reply → Finished
channel_get_working_dir_finish = finish_with read_text

unfoldable pub channel_mute_finish : Reply → Finished
channel_mute_finish = finish_with read_nothing

unfoldable pub channel_set_args_finish : Reply → Finished
channel_set_args_finish = finish_with read_nothing

unfoldable pub channel_set_env_finish : Reply → Finished
channel_set_env_finish = finish_with read_nothing

unfoldable pub channel_set_kill_pid_finish : Reply → Finished
channel_set_kill_pid_finish = finish_with read_nothing

unfoldable pub channel_set_pid_finish : Reply → Finished
channel_set_pid_finish = finish_with read_nothing

unfoldable pub channel_set_target_finish : Reply → Finished
channel_set_target_finish = finish_with read_nothing

unfoldable pub channel_set_working_dir_finish : Reply → Finished
channel_set_working_dir_finish = finish_with read_nothing

unfoldable pub channel_start_finish : Reply → Finished
channel_start_finish = finish_with read_nothing

unfoldable pub channel_stop_finish : Reply → Finished
channel_stop_finish = finish_with read_nothing

unfoldable pub channel_unmute_finish : Reply → Finished
channel_unmute_finish = finish_with read_nothing

unfoldable pub subscription_add_channel_finish : Reply → Finished
subscription_add_channel_finish = finish_with read_nothing

unfoldable pub subscription_add_source_finish : Reply → Finished
subscription_add_source_finish = finish_with read_nothing

unfoldable pub subscription_get_buffer_finish : Reply → Finished
subscription_get_buffer_finish = finish_with read_two_ints

unfoldable pub subscription_get_created_at_finish : TimeText → Reply → Finished
subscription_get_created_at_finish t = finish_with (read_time t)

unfoldable pub subscription_get_sources_finish : Reply → Finished
subscription_get_sources_finish = finish_with (read_ids Kind.source)

unfoldable pub subscription_mute_finish : Reply → Finished
subscription_mute_finish = finish_with read_nothing

unfoldable pub subscription_remove_channel_finish : Reply → Finished
subscription_remove_channel_finish = finish_with read_nothing

unfoldable pub subscription_remove_source_finish : Reply → Finished
subscription_remove_source_finish = finish_with read_nothing

unfoldable pub subscription_set_buffer_finish : Reply → Finished
subscription_set_buffer_finish = finish_with read_nothing

unfoldable pub subscription_unmute_finish : Reply → Finished
subscription_unmute_finish = finish_with read_nothing
