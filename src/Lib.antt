-- ===== src/Lib.antt =====
-- perfkit: an agent that samples processes. The library models the core of the agent.
--
-- The parts, and how they interact. A channel (perfkit-agent/pka-channel.c) drives one process and
-- owns sources; it starts, mutes and stops them by calling them in the order of its array. A source
-- (perfkit-agent/pka-source.c) publishes a manifest, which describes the rows of its samples, and
-- then samples; it hands both to the subscriptions in its array, and queues signals for its class,
-- which the main loop emits later. A subscription (perfkit-agent/pka-subscription.c) invokes the
-- closures of a client with the bytes that the encoder (perfkit-agent/pka-encoder.c) makes of
-- manifests (perfkit-agent/pka-manifest.c) and samples (perfkit-agent/pka-sample.c). Subscribing to
-- a channel connects the subscription to the signals of the channel, so that it follows the sources
-- that come and go.
--
-- The files. Context.antt is perfkit-agent/pka-context.c. Wire.antt holds what is used of the byte
-- buffers and of the time arithmetic, as parameters with laws. Manifest.antt, Sample.antt and
-- Encoder.antt model the three files of these names. World.antt has the structures of channels,
-- sources and subscriptions behind their pointers, the timeouts that wait and the calls that leave
-- the agent. Source.antt, Subscription.antt, Delivery.antt (the delivering half of subscriptions),
-- Channel.antt and Channel/Start.antt have one function per function of the source, with the name
-- less its prefix (`pka_channel_set_target` is Channel.set_target). Source/Handover.antt lets two
-- threads interleave by their critical sections. System.antt is the agent as a machine whose
-- commands are the calls; the files below it are about runs, the states of channels, starts and
-- stops, and subscriptions. Plugin.antt is perfkit-agent/pka-plugin.c. Agent.antt and Manager.antt
-- are the registry, perfkit-agent/pka-manager.c: arrays of pointers, and the sequences that give
-- out pointers and ids. Listener.antt and the files below it have the calls that a client makes by
-- ids (the `_async` and `_finish` functions of perfkit-agent/pka-listener.c), and
-- Listener/Serve.antt makes of them one function of a request. Bus.antt and the files below it have
-- the messages between client and agent: Client/Connection.antt what the client sends and
-- Client/Answers.antt what it makes of the answer (perfkit/connections/pk-connection-dbus.c),
-- Listener/Messages.antt what the agent takes a message for and Listener/Replies.antt what it
-- answers (perfkit-agent/listeners/pka-listener-dbus.c). Registry.antt and the files below it are
-- about the agent under any requests. Tests.antt has the concrete objects of the tests. Ring.antt
-- and the files below it model the ring buffer of the graphs (uber/g-ring.c). Client.antt and the
-- files below it model the decoders of the client (perfkit/pk-manifest.c and perfkit/pk-sample.c),
-- and relate them to the agent's encoder. Their loops take as fuel the number of bytes left, which
-- is enough because a read that succeeds takes a byte at least.
--
-- Conventions. Pointers are numbers, and a store is a function of the pointer. Signed numbers and
-- floating point numbers are their bit patterns. A reply is the gboolean with the GError. The text
-- of an error is not kept with it: where the agent sends it, it is a parameter. Locks are not
-- objects of the model: a function is one step, except where Source.antt splits it. The code holds
-- no lock over some of these steps: pka_channel_start tells its sources after it has unlocked,
-- which is one step with the rest here. GLib's pointer arrays, trees, signals and timeouts are
-- lists, with the order that GLib gives them. Spawning a process, the classes of sources, the
-- clock, the buffers, what modules export and what their factories make are parameters. Ids are
-- unbounded numbers where the code has an int. A D-Bus message is a path, an interface, a method
-- and a list of typed arguments; asking it for arguments fails where the types differ, and ignores
-- further ones. Numbers in paths are printed with as many digits of fuel as the number, which
-- bounds its digits. The text of a time is a parameter, with the law that it gives the time back.
--
-- Not modelled: reference counts and destruction, the logging, the connection that carries the
-- messages, perfkit/pk-connection.c and the proxies of the client, the reading of the configuration
-- and of modules (a parameter: what they contain), the drawing of graphs, and the copies of other
-- libraries under cut-n-paste. Of the calls of a client, those on encoders are left out, as their
-- functions are empty.
pub mod Prelude
pub mod Context
pub mod Wire
pub mod Manifest
pub mod Sample
pub mod Encoder
pub mod World
pub mod Delivery
pub mod Source
pub mod Subscription
pub mod Channel
pub mod Plugin
pub mod Agent
pub mod Manager
pub mod Listener
pub mod System
pub mod Registry
pub mod Bus
pub mod Client
pub mod Ring
pub mod Tests
