-- ===== src/WinSync/Clock.antt =====
-- windows/src/playback/sync.rs: what the audio side may be relied on for.
use moq_cast_desktop.Base.{
  ap, not, map, min, millis, Bool-cases, inl, inr, ℕ, ◌+◌, ◌-◌, ◌≡◌, ◌≢◌, ◌≤◌, ◌<◌, refl, Bool,
  true, false, ◌&&◌, ◌||◌, List, [], ◌∷◌, none, some, arith, ltb, if◌then◌else◌, saturating_add,
  duration_max, All,
}
use moq_cast_desktop.WinSync.Audio.{
  AudioTimeline, new_timeline, is_continuous, observe, AudioOutputTrust, observe_output,
  AudioAnchor, new_anchor, position_at, max_clock_age,
}

-- The frames of one timeline in turn, each its start and its duration, with what is reported at each.
unfoldable pub observe_all : AudioTimeline → List (ℕ × ℕ) → AudioTimeline × List Bool
observe_all t [] = (t, [])
observe_all t ((pts, duration) ∷ frames) =
    let (t', broken) = observe t pts duration in
    let (t'', rest) = observe_all t' frames in (t'', broken ∷ rest)

-- A frame starts before the one before it, or more than 250 ms after that one's end.
abbrev pub is_jump : ℕ × ℕ → ℕ × ℕ → Bool
is_jump (start, duration) (pts, _) =
    ltb pts start || ltb (millis 250) (pts - min (start + duration) duration_max)

-- What is to be reported after a frame: the first jump, and nothing else.
unfoldable pub first_jump : ℕ × ℕ → List (ℕ × ℕ) → List Bool
first_jump last [] = []
first_jump last (f ∷ frames) =
    if is_jump last f then true ∷ map (λ _. false) frames else false ∷ first_jump f frames

-- Whether one of the frames after a frame is a jump.
unfoldable pub has_jump : ℕ × ℕ → List (ℕ × ℕ) → Bool
has_jump last [] = false
has_jump last (f ∷ frames) = is_jump last f || has_jump f frames

-- A timeline after a frame
abbrev after : ℕ × ℕ → Bool → AudioTimeline
after (pts, duration) broken = record {
  previous = some (pts, min (pts + duration) duration_max);
  discontinuous = broken;
}

observe-after :
    (last f : ℕ × ℕ) (b : Bool)
    → is_jump last f ≡ b
    → observe (after last false) f.0 f.1 ≡ (after f b, b)
unfolding observe saturating_add
observe-after (start, duration) (pts, d) true e = rw e refl
observe-after (start, duration) (pts, d) false e = rw e refl

observe-broken : (last f : ℕ × ℕ) → observe (after last true) f.0 f.1 ≡ (after f true, false)
unfolding observe saturating_add
observe-broken (start, duration) (pts, d) =
    ap (λ b. (after (pts, d) true, b)) (and-false (is_jump (start, duration) (pts, d)))
  where
    and-false : (b : Bool) → (b && false) ≡ false
    and-false true = refl
    and-false false = refl

-- What is reported, and whether the timeline is discontinuous in the end.
abbrev outcome : AudioTimeline → List (ℕ × ℕ) → List Bool × Bool
outcome t frames = ((observe_all t frames).1, (observe_all t frames).0.discontinuous)

silent :
    (last : ℕ × ℕ) (frames : List (ℕ × ℕ))
    → outcome (after last true) frames ≡ (map (λ _. false) frames, true)
unfolding observe_all
silent last [] = refl
silent last (f ∷ frames) =
    rw (observe-broken last f) (ap (λ r. (false ∷ r.0, r.1)) (silent f frames))

outcome_lem :
    (last : ℕ × ℕ) (frames : List (ℕ × ℕ))
    → outcome (after last false) frames ≡ (first_jump last frames, has_jump last frames)
unfolding observe_all first_jump has_jump
outcome_lem last [] = refl
outcome_lem last (f ∷ frames) = elim (Bool-cases (is_jump last f)) [
  | inl e ↦ rw (observe-after last f true e, e) (ap (λ r. (true ∷ r.0, r.1)) (silent f frames))
  | inr e ↦
      rw (observe-after last f false e, e) (ap (λ r. (false ∷ r.0, r.1)) (outcome_lem f frames))
]

-- Over the frames of a new timeline, the first frame that starts before its predecessor, or more than
-- 250 ms after its predecessor's end (which is at most `Duration::MAX`), is reported as a break, and no
-- other frame is; the timeline is continuous in the end exactly if there is no such frame.
pub observe_all_first :
    (f : ℕ × ℕ) (frames : List (ℕ × ℕ))
    → let (t, reported) = observe_all new_timeline (f ∷ frames) in
      (reported ≡ false ∷ first_jump f frames) × (is_continuous t ≡ not (has_jump f frames))
unfolding observe_all observe is_continuous saturating_add
observe_all_first f frames =
    let e = outcome_lem f frames in (ap (λ r. false ∷ r.0) e, ap (λ r. not r.1) e)

new_anchor-cases :
    (end buffered observed : ℕ) (a : AudioAnchor)
    → new_anchor end buffered observed ≡ some a
    → (buffered ≤ end) × (a.position ≡ end - buffered) × (a.end ≡ end) × (a.observed ≡ observed)
unfolding new_anchor
new_anchor-cases end buffered observed a h = ground arith

-- The anchor's position is extrapolated in real time from the buffered audio, and is withheld once
-- the anchor is 250 ms old or the buffered audio must have been played.
pub position_at_lem :
    (end buffered observed now : ℕ) (a : AudioAnchor)
    → end ≤ duration_max
    → new_anchor end buffered observed ≡ some a
    → position_at a now ≡ (
        if ltb (now - observed) max_clock_age && ltb (now - observed) buffered
        then some (end - buffered + (now - observed))
        else none)
unfolding position_at saturating_add
position_at_lem end buffered observed now a fits h =
    ground (arith, new_anchor-cases end buffered observed a h)

-- Observations of the output: what was buffered before, accepted and dropped.
abbrev pub Observation : Type 0
Observation = ℕ × ℕ × ℕ

-- Whether any of them is trusted.
unfoldable pub any_trusted : AudioOutputTrust → List Observation → Bool
any_trusted t [] = false
any_trusted t ((buffered, accepted, dropped) ∷ os) =
    let (t', trusted) = observe_output t buffered accepted dropped in trusted || any_trusted t' os

distrusts :
    (t : AudioOutputTrust) (buffered accepted dropped : ℕ)
    → t.dropped ≡ true
    → buffered ≢ 0
    → ((observe_output t buffered accepted dropped).1 ≡ false)
      × ((observe_output t buffered accepted dropped).0.dropped ≡ true)
unfolding observe_output
distrusts t buffered accepted dropped h k = (ground arith, ground arith)

stays_distrusted :
    (t : AudioOutputTrust) (os : List Observation)
    → t.dropped ≡ true
    → All (λ o. o.0 ≢ 0) os
    → any_trusted t os ≡ false
unfolding any_trusted
stays_distrusted t [] h a = refl
stays_distrusted t ((buffered, accepted, dropped) ∷ os) h a =
    let (refused, still) = distrusts t buffered accepted dropped h a.0 in
    rw refused (stays_distrusted (observe_output t buffered accepted dropped).0 os still a.1)

drops :
    (t : AudioOutputTrust) (buffered accepted dropped : ℕ)
    → 0 < dropped
    → ((observe_output t buffered accepted dropped).1 ≡ false)
      × ((observe_output t buffered accepted dropped).0.dropped ≡ true)
unfolding observe_output
drops t buffered accepted dropped h = (ground arith, ground arith)

-- Once the output has dropped samples, no observation is trusted until one finds the buffer empty.
pub drop_distrusts :
    (t : AudioOutputTrust) (buffered accepted dropped : ℕ) (os : List Observation)
    → 0 < dropped
    → All (λ o. o.0 ≢ 0) os
    → any_trusted t ((buffered, accepted, dropped) ∷ os) ≡ false
unfolding any_trusted
drop_distrusts t buffered accepted dropped os h a =
    let (refused, dropping) = drops t buffered accepted dropped h in
    rw refused (stays_distrusted (observe_output t buffered accepted dropped).0 os dropping a)
