-- ===== src/Dashboard/Hooks.antt =====
-- The hooks, web/src/features/*/hooks: what each hands to `useQuery` and to `useMutation` of TanStack
-- Query. One module per file, one definition per hook.
pub mod Keys
pub mod Analytics
pub mod Audit
pub mod Auth
pub mod Changes
pub mod Contexts
pub mod Environments
pub mod Flags
pub mod Members
pub mod Organizations
pub mod Projects
pub mod Roles
pub mod ScheduledChanges
pub mod SdkKeys
pub mod Segments
pub mod Setup
pub mod Triggers
pub mod Users
pub mod Webhooks
use flag_it.Common.{Bool, true, Option, none, some, String, List}
use flag_it.Sdk.Json.{Json}
use flag_it.Dashboard.Api.{Call}
use flag_it.Dashboard.Api.Request.{Failure}
use flag_it.Dashboard.Hooks.Keys.{Key}

pub data StaleTime : Type 0 where
  infinity : StaleTime

-- The argument of `useQuery`; none is an option that is left out.
pub record Query (N : Type 0) : Type 0 where
  pub query_key : Key
  pub query_fn : Call N
  pub enabled : Bool
  pub stale_time : Option StaleTime
  pub retry : Option Bool

-- What a mutation does when it succeeds: to the cache, and to the session.
pub data Effect (N : Type 0) : Type 0 where
  invalidate : Key → Effect N
  set_data : Key → Json N → Effect N
  sign_in : String → Effect N
  sign_out : Effect N
  clear : Effect N

-- The argument of `useMutation`, for variables `I` and a result `O`: the call, what its failure is
-- turned into, and `onSuccess`.
pub record Mutation (I O N : Type 0) : Type 0 where
  pub mutation_fn : I → Call N
  pub translate : Failure → Failure
  pub on_success : O → I → List (Effect N)

abbrev pub same : Failure → Failure
same failure = failure

module _ {N : Type 0} where
  abbrev pub query : Key → Call N → Query N
  query key call = record {
    query_key = key;
    query_fn = call;
    enabled = true;
    stale_time = none;
    retry = none;
  }

  abbrev pub enabled_if : Bool → Query N → Query N
  enabled_if b q = record q { enabled = b }

  abbrev pub mutation : {I O : Type 0} → (I → Call N) → (O → I → List (Effect N)) → Mutation I O N
  mutation call effects = record { mutation_fn = call; translate = same; on_success = effects }
