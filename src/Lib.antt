-- ===== src/Lib.antt =====
-- MoQ Cast: a desktop application that shows screens and plays remote audio and video on a LAN, with
-- implementations for Linux, the Mac and Windows, and a small Windows tray client (windows-lite).
-- This library models the parts of it that keep state of their own and decide what is shown, played
-- and reported, as functions from states to states, and proves what they promise.
--
-- The parts, and how they interact:
--
-- - Lite: the device registry and the discovery worker of windows-lite. The worker takes the events of
--   the mDNS daemon, the clock and the stop channel in turns, changes the registry, and publishes
--   snapshots, by which the tray shows devices and opens watch targets.
--   windows-lite/src/registry.rs is Lite/Registry.antt (records, the five operations, snapshots),
--   Lite/Service.antt (validated_service, canonical_fullname) and Lite/Target.antt
--   (validated_watch_target, is_hex); windows-lite/src/discovery.rs is Lite/Discovery.antt (run,
--   finish_run, publish). A `BTreeMap` is the association list of Base/Map.antt, in the order of its
--   keys.
-- - WinSync: windows/src/playback/sync.rs. WinSync/Audio.antt has the audio timeline, the trust in the
--   output and the clock that the audio writer publishes and the scheduler reads; WinSync/Video.antt
--   has the video scheduler (push, advance, reset, take_stats), which presents frames by that clock.
-- - LinuxSync: linux/src/runtime/playback_sync.rs. LinuxSync/Clock.antt has the media clock, which
--   audio generations own by leases, with the permit of `Notify`; LinuxSync/Video.antt the scheduler.
-- - MacSync: the scheduler of mac/src/playback/sync.rs, in MacSync/Video.antt.
-- - Peers: the facts and the bandwidth estimates of shared/lan-state/src (Peers/Facts.antt,
--   Peers/Bandwidth.antt) and the transport states of windows/src/session/state.rs and
--   mac/src/network/session/state.rs (Peers/Transport.antt, Peers/Windows.antt, Peers/Mac.antt), by
--   which late results of old connection attempts are refused.
-- - MacApp: the snapshot of the Mac's application and the owner's loop that changes it,
--   mac/src/runtime.rs. MacApp/Lifecycle.antt has phases with generations, MacApp/Snapshot.antt,
--   MacApp/Watch.antt and MacApp/Share.antt the snapshot's media and their operations,
--   MacApp/Media.antt the handlers of the media's events, MacApp/Nearby.antt the rest of the snapshot,
--   MacApp/NetworkEvents.antt the handlers of the network's events, and MacApp/Control.antt and
--   MacApp/Loop.antt the loop: a state machine whose states are the `await` points of `run`,
--   `ServiceRun::run` and the waits, and whose inputs are what can come there (`turn` is one input,
--   `run` a list of them). MacApp/Cleanup.antt is
--   shared/task-cleanup.rs.
-- - WinApp: the snapshot of the Windows application, windows/src/runtime.rs. WinApp/Snapshot.antt has
--   its rows and the operations on them, WinApp/Events.antt what the events of the registry, of the
--   directory of screens and of the sessions do, and the operations as one step.
-- - LinuxApp: the retry budgets of linux/src/runtime/supervisor.rs, in LinuxApp/Retry.antt.
-- - Remote: the paths of screens (windows/src/screen_path.rs, in Remote/Paths.antt, which the snapshots
--   of the Mac and of Windows use) and the directory of announced screens (windows/src/remote.rs, in
--   Remote/Directory.antt), whose updates WinApp takes.
-- - Diag: what the diagnostics capture (shared/diagnostics/src/filter.rs, in Diag/Filter.antt), the
--   ring of the latest entries (shared/diagnostics/src/ring.rs, in Diag/Ring.antt), and the queue and
--   the thread that write the lines (shared/diagnostics/src/worker.rs, in Diag/Worker.antt).
-- - Continuity: the continuity of remote audio that linux/src/runtime/playback_audio_continuity.rs
--   observes: Continuity/Teardown.antt, Continuity/Tracker.antt and Continuity/Writes.antt.
--
-- Base has what they share: Boolean tests, lists, byte strings for `str`, ordered maps, and time. The
-- functions keep the names of the code; where one function of the code is several here, the comment of
-- each says which part it is, and an operation that changes `self` returns the state after it.
--
-- Numbers and bounds: a `Duration` is its whole nanoseconds, and its sums saturate at `Duration::MAX`;
-- an `Instant` is a natural number of nanoseconds, which `checked_add` bounds by i64::MAX seconds.
-- Counters of u64 wrap around modulo 2^64 or saturate, as the code has it, and a `usize` has 64 bits.
-- Every loop is a recursion on a list or a queue, so nothing runs on fuel: the worker's loop runs over
-- the sequence of its turns, which may be any.
--
-- A mutex, or an owner that handles one input after another, makes each operation one step; where
-- threads compete without one (the lanes of the ring, the counters and the queue of the diagnostics'
-- writer, the atomics of the teardown) the outcome of the competition is an argument or each operation
-- on an atomic or a channel a step, and what stands between two steps of a thread is a count in the
-- state. The order of relaxed operations on different atomics is left open where a thread does
-- several, and the reader of the writer's two counters of drops is left out. Linux's media clock is
-- notified in the step that changes it, though the code notifies after it has released the mutex. The
-- environment (the mDNS daemon, tokio, the transport, the sinks of the log, clocks) is the sequence of
-- events, answers and instants that the operations are given.
--
-- Not modelled: what is logged or displayed as text, the tasks and channels that call these parts, the
-- registries and the sessions of Linux, the Mac and full Windows, Linux's supervisor but for its
-- retries, capture, codecs and playback tasks, the files of the diagnostics and their export, the
-- interfaces, and the vendored libraries under linux/vendor.
mod Base
pub mod Lite
pub mod WinSync
pub mod LinuxSync
pub mod MacSync
pub mod Peers
pub mod Diag
pub mod Continuity
pub mod LinuxApp
pub mod MacApp
pub mod Remote
pub mod WinApp
