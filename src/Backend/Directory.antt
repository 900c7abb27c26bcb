-- ===== src/Backend/Directory.antt =====
-- The organizations, projects, environments, roles, members and SDK keys of web/src/mocks/handlers.ts,
-- and the setup of an install. `uuid` is `crypto.randomUUID`. Lists that are read as they stand are the
-- fields of the state. The user that the setup replies with is a constant but for its address.
pub mod Keys
use Prim.Native.String.{◌++◌ as str_append}
use flag_it.Common.{
  ℕ, suc, ◌+◌, Bool, true, false, Option, none, some, String, List, [], ◌∷◌, ◌++◌, not, str_eq,
  if◌then◌else◌, find, filterb,
}
use flag_it.Backend.Store.{Reply, json, failure}
use flag_it.Backend.Segments.{or_else}
use flag_it.Backend.Triggers.{without_dashes}

pub record Organization : Type 0 where
  pub id : String
  pub slug : String
  pub name : String
  pub created_at : String
  pub updated_at : String

pub record Project : Type 0 where
  pub id : String
  pub organization_id : String
  pub key : String
  pub name : String
  pub created_at : String
  pub updated_at : String

pub record Environment : Type 0 where
  pub id : String
  pub project_id : String
  pub key : String
  pub name : String
  pub created_at : String
  pub updated_at : String

pub data RoleScope : Type 0 where
  organization_wide : RoleScope
  project_wide : RoleScope

pub record Role : Type 0 where
  pub id : String
  pub organization_id : String
  pub key : String
  pub name : String
  pub description : String
  pub scope : RoleScope
  pub is_system : Bool
  pub permissions : List String
  pub created_at : String
  pub updated_at : String

pub record Member : Type 0 where
  pub user_id : String
  pub email : String
  pub full_name : String
  pub role : String

pub data KeyKind : Type 0 where
  server : KeyKind
  client : KeyKind

pub record SdkKey : Type 0 where
  pub id : String
  pub environment_id : String
  pub key : String
  pub kind : KeyKind
  pub name : String
  pub last_used_at : Option String
  pub revoked_at : Option String
  pub created_at : String

pub record SetupInput : Type 0 where
  pub email : String
  pub password : String
  pub full_name : Option String
  pub organization_slug : Option String
  pub organization_name : Option String

pub record SetupResult : Type 0 where
  pub token : String
  pub user_email : String
  pub organization : Option Organization

-- The body of a POST of a role.
pub record RoleBody : Type 0 where
  pub key : String
  pub name : String
  pub description : Option String
  pub scope : RoleScope
  pub permissions : List String

-- The variables, and the number of ids that were handed out.
pub record Directory : Type 0 where
  pub needs_setup : Bool
  pub organizations : List Organization
  pub projects : List Project
  pub environments : List Environment
  pub roles : List Role
  pub members : List Member
  pub sdk_keys : List SdkKey
  pub issued : ℕ

abbrev pub seed_time : String
seed_time = "2026-07-12T00:00:00Z"

abbrev pub first_organization : String → String → Option String → Organization
first_organization id slug name = record {
  id = id;
  slug = slug;
  name = or_else name slug;
  created_at = seed_time;
  updated_at = seed_time;
}

abbrev pub prefix_of : KeyKind → String
prefix_of client = "client-"
prefix_of server = "sdk-"

-- `mockProjects.find((p) => p.key === params.projectKey)`, `none` for the status 404.
unfoldable pub get_project : String → Directory → Option Project
get_project key d = find (λ p. str_eq p.key key) d.projects

-- The calls that change something.
pub data DirectoryCall : Type 0 where
  completes_setup : SetupInput → DirectoryCall
  deletes_organization : String → DirectoryCall
  deletes_project : String → DirectoryCall
  creates_role : RoleBody → DirectoryCall
  adds_member : String → Option String → DirectoryCall
  creates_project : String → String → DirectoryCall
  creates_environment : String → String → DirectoryCall
  creates_sdk_key : KeyKind → Option String → DirectoryCall
  revokes_sdk_key : String → DirectoryCall

-- The body of a reply.
pub data DirectoryBody : Type 0 where
  no_content : DirectoryBody
  setup_done : SetupResult → DirectoryBody
  new_role : Role → DirectoryBody
  new_member : String → DirectoryBody
  new_project : Project → List Environment → DirectoryBody
  new_environment : Environment → DirectoryBody
  new_sdk_key : SdkKey → DirectoryBody

module _ (uuid : ℕ → String) where
  -- The setup without an organization, and with one of the slug.
  abbrev pub set_up_without : SetupInput → Directory → Directory × Reply DirectoryBody
  set_up_without input d = (
    record d { needs_setup = false; organizations = [] },
    json (
        setup_done
          (record { token = "mock-token"; user_email = input.email; organization = none })),
  )

  abbrev pub set_up_with : String → SetupInput → Directory → Directory × Reply DirectoryBody
  set_up_with slug input d =
      let organization = first_organization (uuid d.issued) slug input.organization_name in
      (
        record d { needs_setup = false; organizations = organization ∷ []; issued = suc d.issued },
        json (
            setup_done (record {
              token = "mock-token";
              user_email = input.email;
              organization = some organization;
            })),
      )

  abbrev pub set_up : Option String → SetupInput → Directory → Directory × Reply DirectoryBody
  set_up none input d = set_up_without input d
  set_up (some slug) input d =
      if str_eq slug "" then set_up_without input d else set_up_with slug input d

  abbrev pub create_sdk_key : KeyKind → Option String → Directory → SdkKey
  create_sdk_key kind name d = record {
    id = uuid d.issued;
    environment_id = "env-prod";
    key = str_append (prefix_of kind) (without_dashes (uuid (suc d.issued)));
    kind = kind;
    name = or_else name "";
    last_used_at = none;
    revoked_at = none;
    created_at = seed_time;
  }

  -- `POST …/setup`
  unfoldable pub complete_setup : SetupInput → Directory → Directory × Reply DirectoryBody
  complete_setup input d =
      if d.needs_setup
      then set_up input.organization_slug input d
      else (d, failure 409 "setup already complete")

  -- `DELETE …/organizations/:organizationSlug`
  unfoldable pub delete_organization : String → Directory → Directory × Reply DirectoryBody
  delete_organization slug d = (
    record d { organizations = filterb (λ t. not (str_eq t.slug slug)) d.organizations },
    json no_content,
  )

  -- `DELETE …/projects/:projectKey`
  unfoldable pub delete_project : String → Directory → Directory × Reply DirectoryBody
  delete_project key d =
      (record d { projects = filterb (λ p. not (str_eq p.key key)) d.projects }, json no_content)

  -- `POST …/roles`
  unfoldable pub create_role : RoleBody → Directory → Directory × Reply DirectoryBody
  create_role body d =
      let role : Role = record {
        id = uuid d.issued;
        organization_id = "t1";
        key = body.key;
        name = body.name;
        description = or_else body.description "";
        scope = body.scope;
        is_system = false;
        permissions = body.permissions;
        created_at = seed_time;
        updated_at = seed_time;
      } in
      (record d { roles = d.roles ++ role ∷ []; issued = suc d.issued }, json (new_role role))

  -- `POST …/members`
  unfoldable pub add_member : String → Option String → Directory → Directory × Reply DirectoryBody
  add_member email role d =
      let member : Member = record {
        user_id = uuid d.issued;
        email = email;
        full_name = "";
        role = or_else role "";
      } in
      (
        record d { members = d.members ++ member ∷ []; issued = suc d.issued },
        json (new_member member.user_id),
      )

  -- `POST …/projects`
  unfoldable pub create_project : String → String → Directory → Directory × Reply DirectoryBody
  create_project key name d =
      let project : Project = record {
        id = uuid d.issued;
        organization_id = "t1";
        key = key;
        name = name;
        created_at = seed_time;
        updated_at = seed_time;
      } in
      (
        record d { projects = d.projects ++ project ∷ []; issued = suc d.issued },
        json (new_project project d.environments),
      )

  -- `POST …/environments`
  unfoldable pub create_environment : String → String → Directory → Directory × Reply DirectoryBody
  create_environment key name d =
      let environment : Environment = record {
        id = uuid d.issued;
        project_id = "p1";
        key = key;
        name = name;
        created_at = seed_time;
        updated_at = seed_time;
      } in
      (
        record d { environments = d.environments ++ environment ∷ []; issued = suc d.issued },
        json (new_environment environment),
      )

  -- `POST …/sdk-keys`
  unfoldable pub post_sdk_key :
      KeyKind → Option String → Directory → Directory × Reply DirectoryBody
  unfolding without_dashes
  post_sdk_key kind name d =
      let key = create_sdk_key kind name d in
      (
        record d { sdk_keys = d.sdk_keys ++ key ∷ []; issued = d.issued + 2 },
        json (new_sdk_key key),
      )

  -- `DELETE …/sdk-keys/:keyID`
  unfoldable pub revoke_sdk_key : String → Directory → Directory × Reply DirectoryBody
  revoke_sdk_key id d =
      (record d { sdk_keys = filterb (λ k. not (str_eq k.id id)) d.sdk_keys }, json no_content)

  -- One call.
  abbrev pub serve_directory : DirectoryCall → Directory → Directory × Reply DirectoryBody
  serve_directory (completes_setup input) d = complete_setup input d
  serve_directory (deletes_organization slug) d = delete_organization slug d
  serve_directory (deletes_project key) d = delete_project key d
  serve_directory (creates_role body) d = create_role body d
  serve_directory (adds_member email role) d = add_member email role d
  serve_directory (creates_project key name) d = create_project key name d
  serve_directory (creates_environment key name) d = create_environment key name d
  serve_directory (creates_sdk_key kind name) d = post_sdk_key kind name d
  serve_directory (revokes_sdk_key id) d = revoke_sdk_key id d

  -- Calls in a row.
  unfoldable pub serve_all : List DirectoryCall → Directory → Directory
  serve_all [] d = d
  serve_all (c ∷ calls) d = serve_all calls (serve_directory c d).0
