-- ===== src/MacApp/Stale.antt =====
-- mac/src/runtime.rs: events of an operation that is over, and the one owner of the media.
use moq_cast_desktop.Base.{
  ℕ, ◌<◌, ◌≤◌, ◌≡◌, ◌≢◌, ◌⊎◌, inl, inr, false, List, [], ◌∷◌, Option, none, some, arith,
}
use moq_cast_desktop.MacApp.Lifecycle.{begin, apply, MediaPhase}
use moq_cast_desktop.MacApp.Snapshot.{
  Media, clear_media, clear_media_fields, reset_if, reset_share_audio,
}
use moq_cast_desktop.MacApp.Watch.{
  begin_watch, playback_started, playback_video_changed, playback_ended, playback_audio_changed,
  stop_watch, begin_stop_watch, finish_stop_media, fail_watch,
}
use moq_cast_desktop.MacApp.Share.{
  AudioStatus, select_share_source, set_share_system_audio, begin_share, share_selected,
  publication_announced, announce_audio, publication_audio_failed, publication_ended, fail_share,
  stop_share, begin_stop_share,
}
use moq_cast_desktop.MacApp.Media.{
  PlaybackEvent, PublicationEvent, apply_playback_event, apply_publication_event, MediaOp,
  watches_screen, stops_watching, selects_source, sets_system_audio, starts_sharing, stops_sharing,
  clears, plays, publishes, step, run,
}
use moq_cast_desktop.MacApp.Coherent.{IsCoherent, step-IsCoherent}

abbrev pub playback_generation : PlaybackEvent → ℕ
playback_generation (PlaybackEvent.started g decoder w h) = g
playback_generation (PlaybackEvent.video_changed g decoder codec w h) = g
playback_generation (PlaybackEvent.audio g snapshot) = g
playback_generation (PlaybackEvent.ended g result) = g

abbrev pub publication_generation : PublicationEvent → ℕ
publication_generation (PublicationEvent.announced g path status) = g
publication_generation (PublicationEvent.audio_failed g message) = g
publication_generation (PublicationEvent.ended g result) = g

stale_playback :
    (s : Media) (event : PlaybackEvent)
    → playback_generation event < s.media.generation
    → apply_playback_event s event ≡ (s, false)
unfolding apply_playback_event playback_started apply playback_video_changed playback_audio_changed
    playback_ended
stale_playback s (PlaybackEvent.started g decoder w h) lt = ground arith
stale_playback s (PlaybackEvent.video_changed g decoder codec w h) lt = ground arith
stale_playback s (PlaybackEvent.audio g snapshot) lt = ground arith
stale_playback s (PlaybackEvent.ended g result) lt = ground arith

stale_publication :
    (s : Media) (event : PublicationEvent)
    → publication_generation event < s.media.generation
    → apply_publication_event s event ≡ s
unfolding apply_publication_event publication_announced apply publication_audio_failed
    publication_ended
stale_publication s (PublicationEvent.announced g path status) lt = ground arith
stale_publication s (PublicationEvent.audio_failed g message) lt = ground arith
stale_publication s (PublicationEvent.ended g result) lt = ground arith

-- How one step changes the generation and the owner.
abbrev Moves : Media → Media → Type 0
Moves s t =
    (s.media.generation ≤ t.media.generation)
    × ((t.media_owner ≡ s.media_owner)
        ⊎ ((s.media.generation < t.media.generation)
            × ((s.media_owner ≡ none) ⊎ (t.media_owner ≡ none))))

clear_media-Moves :
    (s : Media) (error : Option (List ℕ)) → Moves s (clear_media s MediaPhase.idle error)
unfolding clear_media reset_if reset_share_audio clear_media_fields begin
clear_media-Moves s error = ground arith

playback-Moves : (s : Media) (event : PlaybackEvent) → Moves s (apply_playback_event s event).0
unfolding apply_playback_event playback_started apply playback_video_changed playback_audio_changed
    playback_ended fail_watch
playback-Moves s (PlaybackEvent.started g decoder w h) = ground arith
playback-Moves s (PlaybackEvent.video_changed g decoder codec w h) = ground arith
playback-Moves s (PlaybackEvent.audio g snapshot) = ground arith
playback-Moves s (PlaybackEvent.ended g none) = ground (arith, clear_media-Moves s none)
playback-Moves s (PlaybackEvent.ended g (some error)) = ground arith

publication-Moves :
    (s : Media) (event : PublicationEvent) → Moves s (apply_publication_event s event)
unfolding apply_publication_event publication_announced apply announce_audio
    publication_audio_failed publication_ended fail_share reset_share_audio
publication-Moves s (PublicationEvent.announced g path AudioStatus.off) = ground arith
publication-Moves s (PublicationEvent.announced g path AudioStatus.included) = ground arith
publication-Moves s (PublicationEvent.announced g path (AudioStatus.unavailable message)) =
    ground arith
publication-Moves s (PublicationEvent.audio_failed g message) = ground arith
publication-Moves s (PublicationEvent.ended g none) = ground (arith, clear_media-Moves s none)
publication-Moves s (PublicationEvent.ended g (some error)) = ground arith

stop_watch-Moves : (s : Media) (result : Option (List ℕ)) → Moves s (stop_watch s result)
unfolding stop_watch begin_stop_watch finish_stop_media fail_watch apply reset_if reset_share_audio
    clear_media_fields begin
stop_watch-Moves s none = ground arith
stop_watch-Moves s (some error) = ground arith

stop_share-Moves : (s : Media) → Moves s (stop_share s)
unfolding stop_share begin_stop_share finish_stop_media apply reset_if reset_share_audio
    clear_media_fields begin
stop_share-Moves s = ground arith

step-Moves : (s : Media) (op : MediaOp) → IsCoherent s → Moves s (step s op)
unfolding step begin_watch select_share_source set_share_system_audio begin_share share_selected
    begin
step-Moves s (watches_screen peer path) c = ground arith
step-Moves s (stops_watching result) c = stop_watch-Moves s result
step-Moves s (selects_source selection) c = ground arith
step-Moves s (sets_system_audio enabled) c = ground arith
step-Moves s starts_sharing c = ground arith
step-Moves s stops_sharing c = stop_share-Moves s
step-Moves s (clears error) c = clear_media-Moves s error
step-Moves s (plays event) c = playback-Moves s event
step-Moves s (publishes event) c = publication-Moves s event

-- No later step takes a generation back.
run-le :
    (s : Media) (ops : List MediaOp)
    → IsCoherent s
    → s.media.generation ≤ (run s ops).media.generation
unfolding run
run-le s [] c = omega arith
run-le s (op ∷ ops) c =
    omega (arith, (step-Moves s op c).0, run-le (step s op) ops (step-IsCoherent s op c))

-- On the Mac, from a coherent snapshot: once a step has changed the owner of the media, the events
-- of the playbacks and publications that began before it, of the generation then or an earlier one,
-- change nothing after any later steps, and a playback's event is answered with false.
pub over_forever :
    (s : Media) (op : MediaOp) (ops : List MediaOp) (played : PlaybackEvent)
    (published : PublicationEvent)
    → IsCoherent s
    → (step s op).media_owner ≢ s.media_owner
    → playback_generation played ≤ s.media.generation
    → publication_generation published ≤ s.media.generation
    → let s' = run (step s op) ops in
      (apply_playback_event s' played ≡ (s', false)) × (apply_publication_event s' published ≡ s')
over_forever s op ops played published c changed p q =
    let later = run-le (step s op) ops (step-IsCoherent s op c) in
    let advanced : s.media.generation < (step s op).media.generation = elim (step-Moves s op c).1 [
      | inl same ↦ absurd (changed same)
      | inr m ↦ m.0
    ] in
    (
      stale_playback (run (step s op) ops) played (omega (arith, later, advanced)),
      stale_publication (run (step s op) ops) published (omega (arith, later, advanced)),
    )

-- On the Mac, from a coherent snapshot: a step either keeps the owner of the media, or takes it
-- where there was none, or gives it up; a watch never becomes a share at once, nor a share a watch.
pub one_owner :
    (s : Media) (op : MediaOp)
    → IsCoherent s
    → ((step s op).media_owner ≡ s.media_owner)
      ⊎ ((s.media_owner ≡ none) ⊎ ((step s op).media_owner ≡ none))
one_owner s op c = elim (step-Moves s op c).1 [ inl same ↦ inl same | inr m ↦ inr m.1 ]
