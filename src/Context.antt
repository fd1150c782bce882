-- ===== src/Context.antt =====
-- perfkit-agent/pka-context.c: the permission checks that every guarded operation makes, and the
-- replies of operations that return a gboolean beside a GError.
use perfkit.Prelude.{ℕ, Bool, true, Option}

-- `PkaIOControl`
pub data Ioctl : Type 0 where
  invalid add_channel add_encoder add_source add_subscription : Ioctl
  remove_channel remove_encoder remove_source remove_subscription : Ioctl
  modify_channel modify_subscription : Ioctl

-- The codes that the agent puts into a GError. `foreign` is an error that code outside the agent
-- has made (g_spawn_async, a plugin).
pub data Error : Type 0 where
  not_authorized channel_state invalid_type : Error
  foreign : ℕ → Error

-- `accepted` is TRUE. `rejected` is FALSE, with the GError where one is set.
pub data Reply : Type 0 where
  accepted : Reply
  rejected : Option Error → Reply

pub record Context : Type 0 where
  pub ref_count : ℕ
  pub id : ℕ

-- The agent has no access rules yet: every request is authorized.
unfoldable pub is_authorized : Context → Ioctl → Bool
is_authorized context ioctl = true

-- And every context is authenticated.
unfoldable pub is_authenticated : Context → Bool
is_authenticated context = true

-- `pka_context_default`, the context of the agent's own calls, after its first use.
unfoldable pub default_context : Context
default_context = record { ref_count = 1; id = 0 }
