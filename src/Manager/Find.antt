-- ===== src/Manager/Find.antt =====
-- perfkit-agent/pka-manager.c: finding the objects by their ids, and listing them.
use mathlib.Core.List.{reverse}
use perfkit.Prelude.{
  ℕ, Bool, false, Option, none, some, List, [], ◌∷◌, ◌==◌, if◌then◌else◌, same_bytes,
}
use perfkit.Context.{Context, Error, not_authorized, invalid_type}
use perfkit.Wire.{Bytes}
use perfkit.Plugin.{get_id}
use perfkit.Agent.{Agent, Answer, answer, refused}
use perfkit.Manager.Setup.{get_encoder_id}

-- The loops of the finders: the first object of the array that has the id.
abbrev pub find_by : (ℕ → ℕ) → ℕ → List ℕ → Option ℕ
find_by id_of id [] = none
find_by id_of id (x ∷ xs) = if id_of x == id then some x else find_by id_of id xs

abbrev pub found_or : Error → Option ℕ → Answer ℕ
found_or e none = refused (some e)
found_or e (some x) = answer x

unfoldable pub find_channel : Context → ℕ → Agent → Answer ℕ
find_channel context id a =
    found_or not_authorized (find_by (λ c. (a.world.channels c).id) id a.channels)

unfoldable pub find_source : Context → ℕ → Agent → Answer ℕ
find_source context id a =
    found_or not_authorized (find_by (λ s. (a.world.sources s).id) id a.sources)

unfoldable pub find_subscription : Context → ℕ → Agent → Answer ℕ
find_subscription context id a =
    found_or not_authorized (find_by (λ p. (a.world.subscriptions p).id) id a.subscriptions)

-- The ids are asked for one after the other, which may give them.
unfoldable pub find_encoder_in : ℕ → List ℕ → Agent → Agent × Option ℕ
unfolding get_encoder_id
find_encoder_in id [] a = (a, none)
find_encoder_in id (e ∷ encoders) a =
    let (a', found) = get_encoder_id e a in
    let rest = find_encoder_in id encoders a' in if found == id then (a', some e) else rest

unfoldable pub find_encoder : Context → ℕ → Agent → Agent × Answer ℕ
unfolding find_encoder_in
find_encoder context id a =
    let (a', found) = find_encoder_in id a.encoders a in (a', found_or not_authorized found)

abbrev pub is_named : Bytes → Option Bytes → Bool
is_named name none = false
is_named name (some id) = same_bytes id name

unfoldable pub find_plugin_in : Bytes → List ℕ → Agent → Option ℕ
unfolding get_id
find_plugin_in name [] a = none
find_plugin_in name (p ∷ plugins) a =
    if is_named name (get_id (a.plugin_at p)) then some p else find_plugin_in name plugins a

unfoldable pub find_plugin : Context → Option Bytes → Agent → Answer ℕ
unfolding find_plugin_in
find_plugin context none a = refused (some invalid_type)
find_plugin context (some name) a = found_or invalid_type (find_plugin_in name a.plugins a)

-- The getters put each object in front.
unfoldable pub get_channels : Context → Agent → List ℕ
get_channels context a = reverse a.channels

unfoldable pub get_encoders : Context → Agent → List ℕ
get_encoders context a = reverse a.encoders

unfoldable pub get_plugins : Context → Agent → List ℕ
get_plugins context a = reverse a.plugins

unfoldable pub get_sources : Context → Agent → List ℕ
get_sources context a = reverse a.sources

unfoldable pub get_subscriptions : Context → Agent → List ℕ
get_subscriptions context a = reverse a.subscriptions
