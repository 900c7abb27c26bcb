-- ===== src/Dashboard/Hooks/Keys.antt =====
-- `queryKeys` of web/src/lib/query-keys.ts, and the key of web/src/features/users/hooks/useUsers.ts:
-- which entry of the cache holds the data of a query.
use flag_it.Common.{String, List, [], ◌∷◌}

abbrev pub Key : Type 0
Key = List String

abbrev pub me : Key
me = "auth" ∷ "me" ∷ []

abbrev pub setup_status : Key
setup_status = "setup" ∷ "status" ∷ []

abbrev pub organizations : Key
organizations = "organizations" ∷ "list" ∷ []

abbrev pub projects : String → Key
projects o = "projects" ∷ o ∷ []

abbrev pub project : String → String → Key
project o p = "projects" ∷ o ∷ p ∷ []

abbrev pub flags : String → String → Key
flags o p = "flags" ∷ o ∷ p ∷ []

abbrev pub flag_lifecycle : String → String → Key
flag_lifecycle o p = "flags" ∷ o ∷ p ∷ "lifecycle" ∷ []

abbrev pub env_flags : String → String → String → Key
env_flags o p env = "flags" ∷ o ∷ p ∷ "env" ∷ env ∷ []

abbrev pub flag : String → String → String → Key
flag o p flag_key = "flags" ∷ o ∷ p ∷ flag_key ∷ []

abbrev pub flag_config : String → String → String → String → Key
flag_config o p flag_key env = "flags" ∷ o ∷ p ∷ flag_key ∷ "config" ∷ env ∷ []

abbrev pub environments : String → String → Key
environments o p = "environments" ∷ o ∷ p ∷ []

abbrev pub segments : String → String → Key
segments o p = "segments" ∷ o ∷ p ∷ []

abbrev pub segment : String → String → String → Key
segment o p segment_key = "segments" ∷ o ∷ p ∷ segment_key ∷ []

abbrev pub contexts : String → String → String → Key
contexts o p env = "contexts" ∷ o ∷ p ∷ env ∷ []

abbrev pub one_context : String → String → String → String → String → Key
one_context o p env kind key = "contexts" ∷ o ∷ p ∷ env ∷ kind ∷ key ∷ []

abbrev pub sdk_keys : String → String → String → Key
sdk_keys o p env = "sdk-keys" ∷ o ∷ p ∷ env ∷ []

abbrev pub changes : String → String → Key
changes o p = "changes" ∷ o ∷ p ∷ []

abbrev pub scheduled_changes : String → String → Key
scheduled_changes o p = "scheduled-changes" ∷ o ∷ p ∷ []

abbrev pub triggers : String → String → Key
triggers o p = "triggers" ∷ o ∷ p ∷ []

abbrev pub audit : String → Key
audit o = "audit" ∷ o ∷ []

abbrev pub webhooks : String → Key
webhooks o = "webhooks" ∷ o ∷ []

abbrev pub webhook_deliveries : String → String → Key
webhook_deliveries o id = "webhooks" ∷ o ∷ id ∷ "deliveries" ∷ []

abbrev pub roles : String → Key
roles o = "roles" ∷ o ∷ []

abbrev pub permissions : Key
permissions = "permissions" ∷ []

abbrev pub members : String → Key
members o = "members" ∷ o ∷ []

abbrev pub users : Key
users = "users" ∷ []
