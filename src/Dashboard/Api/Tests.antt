-- ===== src/Dashboard/Api/Tests.antt =====
-- The path of a call, and a call that is answered.
use flag_it.Common.{ℕ, ◌≡◌, refl, none, some}
use flag_it.Sdk.Json.{arr, nil, obj, end, lookup}
use flag_it.Dashboard.Api.{Web, Call}
use flag_it.Dashboard.Api.Request.{resolved, rejected, api_error, run}
use flag_it.Dashboard.Api.Paths.{IsClean}
use flag_it.Dashboard.Endpoints.Triggers

abbrev listed : Call ℕ
listed = Triggers.list "acme" "shop" "dark-mode" "prod"

IsClean-organizations : IsClean "organizations"
IsClean-organizations = (
  refl,
  (
    refl,
    (refl, (refl, (refl, (refl, (refl, (refl, (refl, (refl, (refl, (refl, (refl, tt))))))))))),
  ),
)

IsClean-acme : IsClean "acme"
IsClean-acme = (refl, (refl, (refl, (refl, tt))))

IsClean-projects : IsClean "projects"
IsClean-projects = (refl, (refl, (refl, (refl, (refl, (refl, (refl, (refl, tt))))))))

IsClean-shop : IsClean "shop"
IsClean-shop = (refl, (refl, (refl, (refl, tt))))

IsClean-triggers : IsClean "triggers"
IsClean-triggers = (refl, (refl, (refl, (refl, (refl, (refl, (refl, (refl, tt))))))))

abbrev web : Web
web = record { encode_uri_component = λ s. s; encode_form = λ s. s; decimal = λ n. "404" }

-- A list that the response leaves out is empty; a status that is no success is an `ApiError`.
empty_list_test :
    run web
      (λ sent. some (record { status = 200; payload = some (obj end) }))
      (some "/api")
      (some "abc")
      listed
    ≡ resolved (some (arr nil))
unfolding run lookup
empty_list_test = refl

not_found_test :
    run web (λ sent. some (record { status = 404; payload = none })) (some "/api") none listed
    ≡ rejected (
        api_error 404 "/api/organizations/acme/projects/shop/triggers?flag=dark-mode&env=prod"
          "Request failed: 404 /organizations/acme/projects/shop/triggers?flag=dark-mode&env=prod")
unfolding run
not_found_test = refl
