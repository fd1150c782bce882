-- ===== src/Bus.antt =====
-- The messages between the client (perfkit/connections/pk-connection-dbus.c) and the agent
-- (perfkit-agent/listeners/pka-listener-dbus.c), as D-Bus carries them.
pub mod Decimal
pub mod Sent
pub mod Shapes
pub mod Tables
pub mod Returns
pub mod Calls
pub mod Arrives
use perfkit.Prelude.{
  ◌≡◌, ℕ, zero, suc, ◌+◌, ◌-◌, ◌*◌, ◌/◌, ◌%◌, Bool, true, false, ◌&&◌, ◌||◌, Option, none, some,
  List, [], ◌∷◌, ◌++◌, ◌==◌, leb, ltb, if◌then◌else◌,
}
use perfkit.Context.{Error}
use perfkit.Wire.{Bytes}

-- The interfaces, and the prefixes of the paths: "/org/perfkit/Agent/Channel/" is `channel`; the
-- path of the manager has nothing behind it.
pub data Kind : Type 0 where
  manager channel source subscription plugin encoder : Kind

pub record ObjectPath : Type 0 where
  pub kind : Kind
  pub rest : Bytes

-- The names of the methods, in snake case.
pub data Member : Type 0 where
  add_channel add_source add_subscription get_channels get_hostname get_plugins : Member
  get_subscriptions get_version ping remove_channel remove_source remove_subscription : Member
  set_delivery_path : Member
  get_args get_created_at get_env get_exit_status get_kill_pid get_pid get_pid_set : Member
  get_sources get_state get_target get_working_dir mute set_args set_env set_kill_pid : Member
  set_pid set_target set_working_dir start stop unmute : Member
  get_buffer set_buffer set_encoder set_handler : Member
  get_plugin get_copyright get_description get_name get_type : Member
  unknown : Member

pub data Argument : Type 0 where
  int32 : ℕ → Argument
  boolean : Bool → Argument
  string : Bytes → Argument
  object_path : ObjectPath → Argument
  strings : List Bytes → Argument
  paths : List ObjectPath → Argument

pub record Message : Type 0 where
  pub path : ObjectPath
  pub interface : Kind
  pub member : Member
  pub args : List Argument

abbrev pub same_kind : Kind → Kind → Bool
same_kind manager manager = true
same_kind channel channel = true
same_kind source source = true
same_kind subscription subscription = true
same_kind plugin plugin = true
same_kind encoder encoder = true
same_kind _ _ = false

-- "%d" of `g_strdup_printf`, for a number that is not negative; the fuel bounds the digits.
abbrev pub digits : ℕ → ℕ → Bytes
digits zero n = []
digits (suc fuel) n =
    let rest = digits fuel (n / 10) in
    if ltb n 10 then (48 + n) ∷ [] else rest ++ ((48 + n % 10) ∷ [])

abbrev pub print_int : ℕ → Bytes
print_int n = digits (suc n) n

abbrev pub is_digit : ℕ → Bool
is_digit c = leb 48 c && leb c 57

-- "%d" of `sscanf`: the longest run of digits, one at least. (A path has no sign and no space.)
abbrev pub scan_digits : ℕ → Bytes → ℕ
scan_digits acc [] = acc
scan_digits acc (c ∷ s) = if is_digit c then scan_digits (acc * 10 + (c - 48)) s else acc

abbrev pub scan_int : Bytes → Option ℕ
scan_int [] = none
scan_int (c ∷ s) = if is_digit c then some (scan_digits 0 (c ∷ s)) else none

abbrev pub is_space : ℕ → Bool
is_space c = c == 32 || (leb 9 c && leb c 13)

-- "%as" of `sscanf`: the run up to a space, one character at least.
abbrev pub scan_run : Bytes → Bytes
scan_run [] = []
scan_run (c ∷ s) = if is_space c then [] else c ∷ scan_run s

abbrev pub scan_word : Bytes → Option Bytes
scan_word [] = none
scan_word (c ∷ s) = if is_space c then scan_word s else some (c ∷ scan_run s)

-- `sscanf (path, "<prefix>%d", …)` and `sscanf (path, "<prefix>%as", …)`
abbrev pub scan_id : Kind → ObjectPath → Option ℕ
scan_id k p = if same_kind k p.kind then scan_int p.rest else none

abbrev pub scan_name : ObjectPath → Option Bytes
scan_name p = if same_kind plugin p.kind then scan_word p.rest else none

-- What comes back: the name and the text of an error, or the arguments of a method return. A handler that
-- reads the message of an error that is not set crashes.
pub data Reply : Type 0 where
  failure : Bytes → Bytes → Reply
  returned : List Argument → Reply
  crashed : Reply

-- `DBUS_ERROR_FAILED`, and the text that a call sets in its error.
pub record ErrorText : Type 0 where
  pub failed_name : Bytes
  pub message : Error → Bytes

-- `g_time_val_to_iso8601` and `g_time_val_from_iso8601`
pub record TimeText : Type 0 where
  pub to_text : ℕ → Bytes
  pub from_text : Bytes → ℕ

pub record TimeTextLaw (t : TimeText) : Type 0 where
  pub back : (n : ℕ) → t.from_text (t.to_text n) ≡ n
