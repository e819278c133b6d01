-- ===== src/MacApp/Reached.antt =====
-- mac/src/runtime.rs: what holds in every state that the owner's loop reaches.
use moq_cast_desktop.Base.{refl, List, [], ◌∷◌}
use moq_cast_desktop.MacApp.Lifecycle.{begin, apply, RuntimePhase}
use moq_cast_desktop.MacApp.Snapshot.{default_media}
use moq_cast_desktop.MacApp.Media.{
  step, MediaOp, watches_screen, starts_sharing, stops_watching, selects_source, sets_system_audio,
  stops_sharing, plays, publishes,
}
use moq_cast_desktop.MacApp.Coherent.{run-IsCoherent}
use moq_cast_desktop.MacApp.Nearby.{default_nearby}
use moq_cast_desktop.MacApp.Control.{
  App, Input, Answers, Control, starting, serving, recovering, off, suspended, ended, Owner,
}
use moq_cast_desktop.MacApp.Loop.{turn, start_owner, run}
use moq_cast_desktop.MacApp.Rest.{Holds, IsSound, restart-IsSound}
use moq_cast_desktop.MacApp.Serving.{serve-IsSound}
use moq_cast_desktop.MacApp.Turns.{
  start_up-IsSound, recover-IsSound, stay_off-IsSound, sleep-IsSound,
}

turn-IsSound : (o : Owner) (a : Answers) (input : Input) → IsSound o → IsSound (turn o a input)
unfolding turn
turn-IsSound o a input h = go o.control h.stands
  where
    s : App
    s = o.app

    go : (k : Control) → Holds k s → IsSound (turn (record { control = k; app = s }) a input)
    go (starting g) holds = start_up-IsSound g s a input h.coherent h.steady holds
    go (serving g scanned) holds = serve-IsSound g scanned s a input h.coherent h.steady holds
    go (recovering b) holds = recover-IsSound b s a input h.coherent h.steady holds
    go off holds = stay_off-IsSound s input h.coherent h.steady holds
    go (suspended wanted resumed) holds =
        sleep-IsSound wanted resumed s input h.coherent h.steady holds
    go ended holds = record { coherent = h.coherent; steady = h.steady; stands = holds }

start_owner-IsSound : IsSound start_owner
unfolding start_owner moq_cast_desktop.MacApp.Media.run
start_owner-IsSound =
    restart-IsSound
      (record default_nearby {
        runtime =
            (apply (begin default_nearby.runtime RuntimePhase.starting) 1 RuntimePhase.ready).0;
      })
      default_media refl (run-IsCoherent []) (refl, refl)

pub run-IsSound : (o : Owner) (inputs : List (Answers × Input)) → IsSound o → IsSound (run o inputs)
unfolding run
run-IsSound o [] h = h
run-IsSound o ((a, input) ∷ inputs) h =
    run-IsSound (turn o a input) inputs (turn-IsSound o a input h)

-- Whatever commands, system events, network events and media events reach the Mac's owner loop, in
-- whatever order, and whatever its parts answer as they stop, the snapshot stays coherent (the phase
-- of the media fits their owner, no state is left stopping, the peer and the path are there exactly
-- as a watch needs them, a failure has its message, system audio is asked for only where the
-- selection supports it), the network is never left marked as stopping, the services that run are
-- those of the snapshot's generations, and wherever they do not run no screen is listed, watched or
-- shared (at the end of the loop: none is watched or shared), and nobody listens.
pub reached-IsSound : (inputs : List (Answers × Input)) → IsSound (run start_owner inputs)
reached-IsSound inputs = run-IsSound start_owner inputs start_owner-IsSound
