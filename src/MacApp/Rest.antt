-- ===== src/MacApp/Rest.antt =====
-- mac/src/runtime.rs: what holds at each `await` of the owner's loop.
use moq_cast_desktop.Base.{ℕ, ◌≡◌, refl, Bool, true, false, List, [], Option, none, some, arith}
use moq_cast_desktop.Base.Bytes.{bytes}
use moq_cast_desktop.MacApp.Lifecycle.{begin, apply, MediaPhase, NearbyIssue}
use moq_cast_desktop.MacApp.Snapshot.{
  Media, clear_media, clear_media_fields, reset_if, reset_share_audio,
}
use moq_cast_desktop.MacApp.Coherent.{IsCoherent, clear_media-IsCoherent}
use moq_cast_desktop.MacApp.Nearby.{
  Nearby, NetworkGenerations, is_current, is_listening, begin_network_start, mark_network_failed,
  mark_network_stopped,
}
use moq_cast_desktop.MacApp.NetworkEvents.{suspend_snapshot, stop_nearby}
use moq_cast_desktop.MacApp.Cleanup.{finish, add_result}
use moq_cast_desktop.MacApp.Control.{
  App, Answers, Control, starting, serving, recovering, off, suspended, ended, Owner, go_on,
  restart, teardown_media, stop_owner, suspend_owner, report_cleanup, complete_network_turn_off,
}

-- Neither a watch nor a share is under way.
abbrev pub AtRest : Media → Type 0
AtRest m = (m.media.phase ≡ MediaPhase.idle) × (m.media_owner ≡ none)

-- The listener is not there.
abbrev pub IsClosed : Nearby → Type 0
IsClosed n = is_listening n.session.phase ≡ false

-- Nothing of a run of the services is left.
abbrev pub IsVacant : Nearby → Type 0
IsVacant n =
    (n.peers ≡ []) × (n.remote_screens ≡ []) × (n.inbound_sessions ≡ 0) × (n.local_peer_id ≡ none)

-- What holds where the loop stands.
abbrev pub Holds : Control → App → Type 0
Holds (starting g) s =
    AtRest s.media × IsClosed s.nearby × IsVacant s.nearby × (is_current s.nearby g ≡ true)
Holds (serving g scanned) s = is_current s.nearby g ≡ true
Holds (recovering torn) s = AtRest s.media × IsClosed s.nearby × IsVacant s.nearby
Holds off s = AtRest s.media × IsClosed s.nearby × IsVacant s.nearby
Holds (suspended wanted resumed) s = AtRest s.media × IsClosed s.nearby × IsVacant s.nearby
Holds ended s = AtRest s.media × IsClosed s.nearby

pub record IsSound (o : Owner) : Type 0 where
  pub coherent : IsCoherent o.app.media
  pub steady : o.app.nearby.nearby_stopping ≡ false
  pub stands : Holds o.control o.app

clear_media-AtRest :
    (m : Media) (error : Option (List ℕ)) → AtRest (clear_media m MediaPhase.idle error)
unfolding clear_media reset_if reset_share_audio clear_media_fields begin
clear_media-AtRest m error = ground arith

pub teardown_media_sound :
    (m : Media) (a : Answers)
    → IsCoherent m
    → IsCoherent (teardown_media m a) × AtRest (teardown_media m a)
unfolding teardown_media
teardown_media_sound m a c = go a.playback_stop
  where
    go :
        (e : Option (List ℕ))
        → let t : Media = elim e [
          | none ↦ clear_media m MediaPhase.idle none
          | some error ↦
              clear_media (clear_media m MediaPhase.idle none) MediaPhase.idle (some error)
        ] in
          IsCoherent t × AtRest t
    go none = (clear_media-IsCoherent m none c, clear_media-AtRest m none)
    go (some error) = (
      clear_media-IsCoherent (clear_media m MediaPhase.idle none) (some error)
          (clear_media-IsCoherent m none c),
      clear_media-AtRest (clear_media m MediaPhase.idle none) (some error),
    )

pub restart-IsSound :
    (n : Nearby) (m : Media)
    → n.nearby_stopping ≡ false
    → IsCoherent m
    → AtRest m
    → IsSound (restart n m)
unfolding restart begin_network_start begin
restart-IsSound n m st c r = record {
  coherent = c;
  steady = st;
  stands = (r, refl, (refl, refl, refl, refl), ground arith);
}

pub stop_owner-IsSound :
    (n : Nearby) (m : Media) → n.nearby_stopping ≡ false → IsCoherent m → IsSound (stop_owner n m)
unfolding stop_owner stop_nearby begin
stop_owner-IsSound n m st c = record {
  coherent = clear_media-IsCoherent m none c;
  steady = st;
  stands = (clear_media-AtRest m none, refl);
}

pub suspend_owner-IsSound :
    (wanted : Bool) (n : Nearby) (m : Media)
    → n.nearby_stopping ≡ false
    → IsCoherent m
    → AtRest m
    → IsSound (suspend_owner wanted n m)
unfolding suspend_owner suspend_snapshot begin
suspend_owner-IsSound wanted n m st c r = record {
  coherent = c;
  steady = st;
  stands = (r, refl, (refl, refl, refl, refl));
}

pub off-IsSound :
    (n : Nearby) (m : Media)
    → IsCoherent m
    → AtRest m
    → IsSound (go_on off (mark_network_stopped n) m)
unfolding mark_network_stopped begin
off-IsSound n m c r = record {
  coherent = c;
  steady = refl;
  stands = (r, refl, (refl, refl, refl, refl));
}

pub failed-IsSound :
    (torn : Bool) (n : Nearby) (m : Media) (g : NetworkGenerations) (issue : NearbyIssue)
    → n.nearby_stopping ≡ false
    → is_current n g ≡ true
    → IsCoherent m
    → AtRest m
    → IsSound (go_on (recovering torn) (mark_network_failed n g issue).0 m)
unfolding mark_network_failed apply
failed-IsSound torn n m g issue st current c r =
    rw current
      (record { coherent = c; steady = st; stands = (r, ground arith, (refl, refl, refl, refl)) })

-- The error that the cleanup leaves is no part of what rests.
explain_sound :
    (m : Media) (error : Option (List ℕ))
    → IsCoherent m
    → AtRest m
    → let m' : Media = record m { media_error = error } in IsCoherent m' × AtRest m'
explain_sound m error c (idle, free) = (ground arith, (idle, free))

report_cleanup-IsSound :
    (n : Nearby) (m : Media) (error : Option (List ℕ))
    → IsCoherent m
    → AtRest m
    → let (n', m') = report_cleanup (mark_network_stopped n) m error in IsSound (go_on off n' m')
unfolding report_cleanup mark_network_stopped begin
report_cleanup-IsSound n m none c r =
    let (c', r') = explain_sound m none c r in
    record { coherent = c'; steady = refl; stands = (r', refl, (refl, refl, refl, refl)) }
report_cleanup-IsSound n m (some e) c r =
    let (c', r') = explain_sound m (some e) c r in
    record { coherent = c'; steady = refl; stands = (r', refl, (refl, refl, refl, refl)) }

pub turn_off-IsSound :
    (n : Nearby) (m : Media) (a : Answers)
    → IsCoherent m
    → let (n', m') = complete_network_turn_off n m a in IsSound (go_on off n' m')
unfolding complete_network_turn_off
turn_off-IsSound n m a c =
    let (c', r') = teardown_media_sound m a c in
    report_cleanup-IsSound n (teardown_media m a)
      (finish (
        add_result (add_result [] (bytes "media") (teardown_media m a).media_error)
          (bytes "services") a.services_shutdown))
      c' r'
