-- ===== src/Peers/Bandwidth.antt =====
-- shared/lan-state/src/bandwidth.rs: the latest estimates of a connection. An `Observation` owns its
-- state by an `Arc`, and a `View` refers to it by a `Weak`: both are the number of a cell in a
-- store, and a cell whose observation was dropped is empty.
use moq_cast_desktop.Base.{ℕ, ◌+◌, ◌==◌, Bool, if◌then◌else◌, Option, none, some}

pub record Sample : Type 0 where
  pub send_bps : Option ℕ
  pub recv_bps : Option ℕ

pub record State : Type 0 where
  pub epoch : ℕ
  pub sample : Sample

-- `Sample::default` and `State::default`
abbrev pub default_sample : Sample
default_sample = record { send_bps = none; recv_bps = none }

abbrev pub default_state : State
default_state = record { epoch = 0; sample = default_sample }

-- The cells that were allocated are those below `next`.
pub record Store : Type 0 where
  pub next : ℕ
  pub cells : ℕ → Option State

unfoldable pub set_cell : Store → ℕ → Option State → Store
set_cell s id cell = record s { cells = λ j. if id == j then cell else s.cells j }

-- `Observation::default`, a new cell
unfoldable pub observe : Store → Store × ℕ
unfolding set_cell
observe s = (record (set_cell s s.next (some default_state)) { next = s.next + 1 }, s.next)

-- `Observation::view`
unfoldable pub view : ℕ → ℕ
view observation = observation

-- `View::eq`
unfoldable pub same_view : ℕ → ℕ → Bool
same_view v w = v == w

-- `View::sample`
unfoldable pub sample_of : Store → ℕ → Sample
sample_of s v = elim (s.cells v) [ none ↦ default_sample | some state ↦ state.sample ]

-- `Observation::reset`. The observation is not dropped, since it is used.
unfoldable pub reset : Store → ℕ → ℕ → Store
unfolding set_cell
reset s observation epoch =
    set_cell s observation (some (record { epoch = epoch; sample = default_sample }))

unfoldable pub update_state : ℕ → Sample → State → State
update_state epoch sample state =
    if state.epoch == epoch then record state { sample = sample } else state

-- `Observation::update`
unfoldable pub update : Store → ℕ → ℕ → Sample → Store
unfolding set_cell update_state
update s observation epoch sample = elim (s.cells observation) [
  | none ↦ s
  | some state ↦ set_cell s observation (some (update_state epoch sample state))
]

-- The observation goes out of scope.
unfoldable pub drop_observation : Store → ℕ → Store
unfolding set_cell
drop_observation s observation = set_cell s observation none
