-- ===== src/Listener/Replies.antt =====
-- perfkit-agent/listeners/pka-listener-dbus.c: the callbacks that answer a message with the result
-- of its call.
use perfkit.Prelude.{ℕ, none, some, List, [], ◌∷◌, map}
use perfkit.Wire.{Bytes}
use perfkit.Agent.{Answer, answer, refused}
use perfkit.Bus.{
  Kind, ObjectPath, Argument, int32, boolean, string, object_path, strings, paths, Reply, failure,
  returned, crashed, ErrorText, TimeText, print_int,
}
use perfkit.Listener.{Value, flag, number, two_numbers, numbers, text, texts}

-- Every error is answered under the one name, with its text: its domain and its code are not sent.
abbrev pub reply_with : ErrorText → (Value → List Argument) → Answer Value → Reply
reply_with u args (answer v) = returned (args v)
reply_with u args (refused (some e)) = failure u.failed_name (u.message e)
reply_with u args (refused none) = crashed

-- The arguments of a value; a call hands out only values of its own type.
abbrev pub no_args : Value → List Argument
no_args v = []

abbrev pub flag_args : Value → List Argument
flag_args (flag x) = boolean x ∷ []
flag_args _ = []

abbrev pub int_args : Value → List Argument
int_args (number n) = int32 n ∷ []
int_args _ = []

abbrev pub two_ints_args : Value → List Argument
two_ints_args (two_numbers m n) = int32 m ∷ int32 n ∷ []
two_ints_args _ = []

abbrev pub path_of : Kind → ℕ → ObjectPath
path_of kind id = record { kind = kind; rest = print_int id }

abbrev pub id_args : Kind → Value → List Argument
id_args kind (number n) = object_path (path_of kind n) ∷ []
id_args kind _ = []

abbrev pub ids_args : Kind → Value → List Argument
ids_args kind (numbers l) = paths (map (path_of kind) l) ∷ []
ids_args kind _ = []

-- A null string becomes an empty one.
abbrev pub text_args : Value → List Argument
text_args (text none) = string [] ∷ []
text_args (text (some s)) = string s ∷ []
text_args _ = []

abbrev pub texts_args : Value → List Argument
texts_args (texts none) = strings [] ∷ []
texts_args (texts (some l)) = strings l ∷ []
texts_args _ = []

abbrev pub time_args : TimeText → Value → List Argument
time_args t (number n) = string (t.to_text n) ∷ []
time_args t _ = []

abbrev pub name_path : Bytes → ObjectPath
name_path name = record { kind = Kind.plugin; rest = name }

-- A null name is printed as "(null)".
abbrev pub name_args : Value → List Argument
name_args (text none) = object_path (name_path (40 ∷ 110 ∷ 117 ∷ 108 ∷ 108 ∷ 41 ∷ [])) ∷ []
name_args (text (some s)) = object_path (name_path s) ∷ []
name_args _ = []

abbrev pub names_args : Value → List Argument
names_args (texts none) = paths [] ∷ []
names_args (texts (some l)) = paths (map name_path l) ∷ []
names_args _ = []

unfoldable pub plugin_get_copyright_cb : ErrorText → Answer Value → Reply
plugin_get_copyright_cb u = reply_with u text_args

unfoldable pub plugin_get_description_cb : ErrorText → Answer Value → Reply
plugin_get_description_cb u = reply_with u text_args

unfoldable pub plugin_get_name_cb : ErrorText → Answer Value → Reply
plugin_get_name_cb u = reply_with u text_args

unfoldable pub plugin_get_plugin_type_cb : ErrorText → Answer Value → Reply
plugin_get_plugin_type_cb u = reply_with u int_args

unfoldable pub plugin_get_version_cb : ErrorText → Answer Value → Reply
plugin_get_version_cb u = reply_with u text_args

unfoldable pub source_get_plugin_cb : ErrorText → Answer Value → Reply
source_get_plugin_cb u = reply_with u name_args

unfoldable pub manager_add_channel_cb : ErrorText → Answer Value → Reply
manager_add_channel_cb u = reply_with u (id_args Kind.channel)

unfoldable pub manager_add_source_cb : ErrorText → Answer Value → Reply
manager_add_source_cb u = reply_with u (id_args Kind.source)

unfoldable pub manager_add_subscription_cb : ErrorText → Answer Value → Reply
manager_add_subscription_cb u = reply_with u (id_args Kind.subscription)

unfoldable pub manager_get_channels_cb : ErrorText → Answer Value → Reply
manager_get_channels_cb u = reply_with u (ids_args Kind.channel)

unfoldable pub manager_get_hostname_cb : ErrorText → Answer Value → Reply
manager_get_hostname_cb u = reply_with u text_args

unfoldable pub manager_get_plugins_cb : ErrorText → Answer Value → Reply
manager_get_plugins_cb u = reply_with u names_args

unfoldable pub manager_get_sources_cb : ErrorText → Answer Value → Reply
manager_get_sources_cb u = reply_with u (ids_args Kind.source)

unfoldable pub manager_get_subscriptions_cb : ErrorText → Answer Value → Reply
manager_get_subscriptions_cb u = reply_with u (ids_args Kind.subscription)

unfoldable pub manager_get_version_cb : ErrorText → Answer Value → Reply
manager_get_version_cb u = reply_with u text_args

unfoldable pub manager_ping_cb : ErrorText → TimeText → Answer Value → Reply
manager_ping_cb u t = reply_with u (time_args t)

unfoldable pub manager_remove_channel_cb : ErrorText → Answer Value → Reply
manager_remove_channel_cb u = reply_with u flag_args

unfoldable pub manager_remove_source_cb : ErrorText → Answer Value → Reply
manager_remove_source_cb u = reply_with u no_args

unfoldable pub manager_remove_subscription_cb : ErrorText → Answer Value → Reply
manager_remove_subscription_cb u = reply_with u flag_args

unfoldable pub channel_add_source_cb : ErrorText → Answer Value → Reply
channel_add_source_cb u = reply_with u no_args

unfoldable pub channel_get_args_cb : ErrorText → Answer Value → Reply
channel_get_args_cb u = reply_with u texts_args

unfoldable pub channel_get_created_at_cb : ErrorText → TimeText → Answer Value → Reply
channel_get_created_at_cb u t = reply_with u (time_args t)

unfoldable pub channel_get_env_cb : ErrorText → Answer Value → Reply
channel_get_env_cb u = reply_with u texts_args

unfoldable pub channel_get_exit_status_cb : ErrorText → Answer Value → Reply
channel_get_exit_status_cb u = reply_with u int_args

unfoldable pub channel_get_kill_pid_cb : ErrorText → Answer Value → Reply
channel_get_kill_pid_cb u = reply_with u flag_args

unfoldable pub channel_get_pid_cb : ErrorText → Answer Value → Reply
channel_get_pid_cb u = reply_with u int_args

unfoldable pub channel_get_pid_set_cb : ErrorText → Answer Value → Reply
channel_get_pid_set_cb u = reply_with u flag_args

unfoldable pub channel_get_sources_cb : ErrorText → Answer Value → Reply
channel_get_sources_cb u = reply_with u (ids_args Kind.source)

unfoldable pub channel_get_state_cb : ErrorText → Answer Value → Reply
channel_get_state_cb u = reply_with u int_args

unfoldable pub channel_get_target_cb : ErrorText → Answer Value → Reply
channel_get_target_cb u = reply_with u text_args

unfoldable pub channel_get_working_dir_cb : ErrorText → Answer Value → Reply
channel_get_working_dir_cb u = reply_with u text_args

unfoldable pub channel_mute_cb : ErrorText → Answer Value → Reply
channel_mute_cb u = reply_with u no_args

unfoldable pub channel_set_args_cb : ErrorText → Answer Value → Reply
channel_set_args_cb u = reply_with u no_args

unfoldable pub channel_set_env_cb : ErrorText → Answer Value → Reply
channel_set_env_cb u = reply_with u no_args

unfoldable pub channel_set_kill_pid_cb : ErrorText → Answer Value → Reply
channel_set_kill_pid_cb u = reply_with u no_args

unfoldable pub channel_set_pid_cb : ErrorText → Answer Value → Reply
channel_set_pid_cb u = reply_with u no_args

unfoldable pub channel_set_target_cb : ErrorText → Answer Value → Reply
channel_set_target_cb u = reply_with u no_args

unfoldable pub channel_set_working_dir_cb : ErrorText → Answer Value → Reply
channel_set_working_dir_cb u = reply_with u no_args

unfoldable pub channel_start_cb : ErrorText → Answer Value → Reply
channel_start_cb u = reply_with u no_args

unfoldable pub channel_stop_cb : ErrorText → Answer Value → Reply
channel_stop_cb u = reply_with u no_args

unfoldable pub channel_unmute_cb : ErrorText → Answer Value → Reply
channel_unmute_cb u = reply_with u no_args

unfoldable pub subscription_add_channel_cb : ErrorText → Answer Value → Reply
subscription_add_channel_cb u = reply_with u no_args

unfoldable pub subscription_add_source_cb : ErrorText → Answer Value → Reply
subscription_add_source_cb u = reply_with u no_args

unfoldable pub subscription_get_buffer_cb : ErrorText → Answer Value → Reply
subscription_get_buffer_cb u = reply_with u two_ints_args

unfoldable pub subscription_get_created_at_cb : ErrorText → TimeText → Answer Value → Reply
subscription_get_created_at_cb u t = reply_with u (time_args t)

unfoldable pub subscription_get_sources_cb : ErrorText → Answer Value → Reply
subscription_get_sources_cb u = reply_with u (ids_args Kind.source)

unfoldable pub subscription_mute_cb : ErrorText → Answer Value → Reply
subscription_mute_cb u = reply_with u no_args

unfoldable pub subscription_remove_channel_cb : ErrorText → Answer Value → Reply
subscription_remove_channel_cb u = reply_with u no_args

unfoldable pub subscription_remove_source_cb : ErrorText → Answer Value → Reply
subscription_remove_source_cb u = reply_with u no_args

unfoldable pub subscription_set_buffer_cb : ErrorText → Answer Value → Reply
subscription_set_buffer_cb u = reply_with u no_args

unfoldable pub subscription_unmute_cb : ErrorText → Answer Value → Reply
subscription_unmute_cb u = reply_with u no_args
