-- ===== src/Campaign/Phase.antt =====
-- The lifecycle phases and the transition table of campaign/machine.py.
pub mod Edges
use recursive_self_improveme.Common.{
  Bool, true, false, ◌&&◌, ◌||◌, not, Option, none, some, List, [], ◌∷◌, String, str_eq,
  if◌then◌else◌,
}

pub data CampaignPhase : Type 0 where
  discover plan propose dev_evaluate select_freeze holdout approve canary : CampaignPhase
  promoted rolled_back learn paused cancelled : CampaignPhase

-- A `StrEnum` member is its value.
unfoldable pub value : CampaignPhase → String
value discover = "discover"
value plan = "plan"
value propose = "propose"
value dev_evaluate = "dev_evaluate"
value select_freeze = "select_freeze"
value holdout = "holdout"
value approve = "approve"
value canary = "canary"
value promoted = "promoted"
value rolled_back = "rolled_back"
value learn = "learn"
value paused = "paused"
value cancelled = "cancelled"

-- The members in declaration order.
abbrev pub phases : List CampaignPhase
phases =
    discover ∷ plan ∷ propose ∷ dev_evaluate ∷ select_freeze ∷ holdout ∷ approve ∷ canary ∷ promoted
    ∷ rolled_back ∷ learn ∷ paused ∷ cancelled ∷ []

find_value : String → List CampaignPhase → Option CampaignPhase
find_value text [] = none
find_value text (p ∷ ps) = if str_eq (value p) text then some p else find_value text ps

-- `CampaignPhase(text)`; `none` stands for the `ValueError`.
unfoldable pub parse_phase : String → Option CampaignPhase
unfolding value find_value
parse_phase text = find_value text phases

-- `is` and `==` on members.
unfoldable pub same : CampaignPhase → CampaignPhase → Bool
unfolding value
same p q = str_eq (value p) (value q)

-- `x in frozenset`
unfoldable pub contains : List CampaignPhase → CampaignPhase → Bool
unfolding same
contains [] q = false
contains (p ∷ ps) q = same p q || contains ps q

-- Each frozenset is the list of its members in the order of `sorted`, that of their values.
unfoldable pub allowed_transitions : CampaignPhase → List CampaignPhase
allowed_transitions discover = plan ∷ []
allowed_transitions plan = propose ∷ []
allowed_transitions propose = dev_evaluate ∷ []
allowed_transitions dev_evaluate = propose ∷ select_freeze ∷ []
allowed_transitions select_freeze = holdout ∷ []
allowed_transitions holdout = approve ∷ []
allowed_transitions approve = canary ∷ rolled_back ∷ []
allowed_transitions canary = promoted ∷ rolled_back ∷ []
allowed_transitions promoted = learn ∷ []
allowed_transitions rolled_back = learn ∷ []
allowed_transitions learn = []
allowed_transitions paused = []
allowed_transitions cancelled = []

abbrev pub terminal_phases : List CampaignPhase
terminal_phases = learn ∷ cancelled ∷ []

unfoldable pub is_terminal : CampaignPhase → Bool
unfolding contains
is_terminal phase = contains terminal_phases phase

unfoldable pub can_pause : CampaignPhase → Bool
unfolding is_terminal
can_pause phase = not (is_terminal phase) && not (same phase paused)

unfoldable pub can_cancel : CampaignPhase → Bool
unfolding is_terminal
can_cancel phase = not (is_terminal phase)
