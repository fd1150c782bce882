-- ===== src/Tests/Messages.antt =====
-- The theorems on the messages, at concrete calls.
use perfkit.Prelude.{◌≡◌, refl, Bool, true}
use perfkit.Bus.{ObjectPath}
use perfkit.Bus.Sent.{sent, delivered}
use perfkit.Bus.Arrives.{call_arrives, removal_misdirected, buffer_dropped}
use perfkit.Listener.Messages.{requested}
use perfkit.Listener.Serve.{
  on_channel, channel_set_pid, manager_remove_channel, on_manager, manager_add_subscription,
}

abbrev all_paths : ObjectPath → Bool
all_paths p = true

call_arrives_example :
    delivered all_paths (sent (on_channel 4031 (channel_set_pid 77)))
    ≡ requested (on_channel 4031 (channel_set_pid 77))
call_arrives_example = call_arrives all_paths (on_channel 4031 (channel_set_pid 77)) refl refl

removal_misdirected_example :
    delivered all_paths (sent (on_channel 12 manager_remove_channel))
    ≡ requested (on_channel 0 manager_remove_channel)
removal_misdirected_example = removal_misdirected all_paths 12 refl

buffer_dropped_example :
    delivered all_paths (sent (on_manager (manager_add_subscription 4096 500)))
    ≡ requested (on_manager (manager_add_subscription 0 0))
buffer_dropped_example = buffer_dropped all_paths 4096 500 refl
