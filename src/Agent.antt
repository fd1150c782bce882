-- ===== src/Agent.antt =====
-- The agent as a whole: the objects, and the manager's arrays of them (perfkit-agent/pka-manager.c).
-- New objects get the pointers 0, 1, 2, … of their kind, in the order of their creation, which is
-- also the order of the sequences that give them their ids.
use perfkit.Prelude.{ℕ, Option, List, Store}
use perfkit.Context.{Error}
use perfkit.Wire.{Bytes}
use perfkit.Plugin.{Plugin}
use perfkit.World.{World}

-- What a listener is told.
pub data Notice : Type 0 where
  plugin_added : Option Bytes → Notice
  encoder_added source_added source_removed channel_added : ℕ → Notice
  subscription_added subscription_removed : ℕ → Notice

-- `PkaManager`, with the objects. An encoder's id is its object data, where 0 is none.
pub record Agent : Type 0 where
  pub world : World
  pub channels : List ℕ
  pub encoders : List ℕ
  pub listeners : List ℕ
  pub plugins : List ℕ
  pub sources : List ℕ
  pub subscriptions : List ℕ
  pub plugin_at : Store Plugin
  pub encoder_ids : Store ℕ
  pub next_channel : ℕ
  pub next_source : ℕ
  pub next_subscription : ℕ
  pub next_encoder : ℕ
  pub encoder_seq : ℕ
  pub notices : List (ℕ × Notice)

-- An operation's result, or FALSE with the error where one is set.
pub data Answer {ℓ} (A : Type ℓ) : Type ℓ where
  answer : A → Answer A
  refused : Option Error → Answer A
