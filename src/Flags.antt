-- ===== src/Flags.antt =====
-- The types of the dashboard that the flags are made of, in web/src/types: flag.ts, segment.ts,
-- change.ts and scheduled-change.ts. Clause values
-- are of type `unknown` there, and of a type `V` here. Variations are indices, natural numbers.
use flag_it.Common.{ℕ, Bool, Option, String, List}

pub record Clause (V : Type 0) : Type 0 where
  pub context_kind : Option String
  pub attribute : Option String
  pub op : String
  pub values : List V
  pub negate : Option Bool

pub record Weighted : Type 0 where
  pub variation : ℕ
  pub weight : ℕ

pub record Rollout : Type 0 where
  pub variations : List Weighted
  pub bucket_by : Option String
  pub context_kind : Option String
  pub seed : Option ℕ

pub record VariationOrRollout : Type 0 where
  pub variation : Option ℕ
  pub rollout : Option Rollout

pub record FlagRule (V : Type 0) : Type 0 where
  pub id : Option String
  pub clauses : List (Clause V)
  pub variation : Option ℕ
  pub rollout : Option Rollout

pub record Target : Type 0 where
  pub context_kind : String
  pub values : List String
  pub variation : ℕ

pub record FlagConfig (V : Type 0) : Type 0 where
  pub on : Bool
  pub off_variation : ℕ
  pub fallthrough : VariationOrRollout
  pub targets : List Target
  pub rules : List (FlagRule V)
  pub version : ℕ

pub record FlagInstruction (V : Type 0) : Type 0 where
  pub kind : String
  pub variation : Option ℕ
  pub context_kind : Option String
  pub values : Option (List String)
  pub clauses : Option (List (Clause V))
  pub rollout : Option Rollout
  pub rule_id : Option String
  pub rule_ids : Option (List String)

pub data ChangeStatus : Type 0 where
  pending : ChangeStatus
  approved : ChangeStatus
  rejected : ChangeStatus

pub record ChangeRequest (V : Type 0) : Type 0 where
  pub id : String
  pub project_id : String
  pub environment_id : String
  pub environment_key : String
  pub flag_key : String
  pub instructions : List (FlagInstruction V)
  pub comment : String
  pub status : ChangeStatus
  pub requested_by : String
  pub requested_by_email : String
  pub reviewed_by : Option String
  pub reviewed_by_email : Option String
  pub review_comment : Option String
  pub created_at : String
  pub reviewed_at : Option String

pub data ScheduledStatus : Type 0 where
  waiting : ScheduledStatus
  applied : ScheduledStatus
  cancelled : ScheduledStatus
  failed : ScheduledStatus

pub record ScheduledChange (V : Type 0) : Type 0 where
  pub id : String
  pub project_id : String
  pub environment_id : String
  pub environment_key : String
  pub flag_key : String
  pub instructions : List (FlagInstruction V)
  pub comment : String
  pub scheduled_for : String
  pub status : ScheduledStatus
  pub error : Option String
  pub created_by : String
  pub created_by_email : String
  pub created_at : String
  pub applied_at : Option String

pub record SegmentRule (V : Type 0) : Type 0 where
  pub id : Option String
  pub clauses : List (Clause V)
  pub weight : Option ℕ
  pub bucket_by : Option String
  pub rollout_context_kind : Option String

pub record SegmentTarget : Type 0 where
  pub context_kind : String
  pub values : List String

pub record Segment (V : Type 0) : Type 0 where
  pub id : String
  pub project_id : String
  pub key : String
  pub name : String
  pub description : String
  pub included : List String
  pub excluded : List String
  pub included_contexts : List SegmentTarget
  pub excluded_contexts : List SegmentTarget
  pub rules : List (SegmentRule V)
  pub version : ℕ
  pub created_at : String
  pub updated_at : String

pub record Flag (V : Type 0) : Type 0 where
  pub id : String
  pub project_id : String
  pub key : String
  pub name : String
  pub description : String
  pub client_side_available : Bool
  pub temporary : Bool
  pub variations : List V
  pub created_at : String
  pub updated_at : String

pub data LifecycleStatus : Type 0 where
  new : LifecycleStatus
  active : LifecycleStatus
  inactive : LifecycleStatus

-- The fields of the flag, and its status.
pub record FlagLifecycle (V : Type 0) : Type 0 where
  pub flag : Flag V
  pub status : LifecycleStatus
  pub last_evaluated : Option String

-- The fields of the flag, and whether it is on in an environment.
pub record FlagWithState (V : Type 0) : Type 0 where
  pub flag : Flag V
  pub on : Bool
