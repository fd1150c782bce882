-- ===== src/Listener.antt =====
-- perfkit-agent/pka-listener.c: the calls that a client makes of the agent. Each `_async` function
-- packs the arguments of a call, and its `_finish` function unpacks them, finds the objects by their
-- ids, and makes the call in the default context. A function of the model is the two together.
pub mod OnChannels
pub mod OnManager
pub mod OnSubscriptions
pub mod Serve
pub mod Messages
pub mod Replies
use perfkit.Prelude.{ℕ, Bool, Option, none, some, List}
use perfkit.Context.{Reply, accepted, rejected, Error, default_context}
use perfkit.Wire.{Bytes}
use perfkit.World.{World}
use perfkit.Agent.{Agent, Answer, answer, refused}
use perfkit.Manager

-- What a call hands out beside TRUE.
pub data Value : Type 0 where
  done : Value
  flag : Bool → Value
  number : ℕ → Value
  two_numbers : ℕ → ℕ → Value
  numbers : List ℕ → Value
  text : Option Bytes → Value
  texts : Option (List Bytes) → Value

abbrev pub Outcome : Type 0
Outcome = Agent × Answer Value

-- The object of an id, or the failure of the call.
unfoldable pub with_found : Agent → Answer ℕ → (ℕ → Outcome) → Outcome
with_found a (refused e) f = (a, refused e)
with_found a (answer x) f = f x

abbrev pub with_channel : ℕ → Agent → (ℕ → Outcome) → Outcome
with_channel id a f = with_found a (Manager.find_channel default_context id a) f

abbrev pub with_source : ℕ → Agent → (ℕ → Outcome) → Outcome
with_source id a f = with_found a (Manager.find_source default_context id a) f

abbrev pub with_subscription : ℕ → Agent → (ℕ → Outcome) → Outcome
with_subscription id a f = with_found a (Manager.find_subscription default_context id a) f

abbrev pub with_plugin : Option Bytes → Agent → (ℕ → Outcome) → Outcome
with_plugin id a f = with_found a (Manager.find_plugin default_context id a) f

abbrev pub reply_answer : Reply → Answer Value
reply_answer accepted = answer done
reply_answer (rejected e) = refused e

-- An operation on the objects, as the result of the call.
abbrev pub in_world : Agent → World × Reply → Outcome
in_world a (w, reply) = (record a { world = w }, reply_answer reply)
