-- ===== src/Dashboard/Coherence/Methods.antt =====
-- What the calls of the hooks do on the network.
use flag_it.Common.{String, Option, none, false, ◌≡◌, refl, str_eq}
use flag_it.Dashboard.Api.{Web}
use flag_it.Dashboard.Hooks.Changes.{Action, approve, reject, review_call}
use flag_it.Dashboard.Coherence.{View, Event, asks, call_of}

review_call-writes :
    (N : Type 0) (o p id : String) (a : Action) (comment : Option String)
    → str_eq
        (review_call {N = N} o p (record { id = id; action = a; comment = comment })).method
        "GET"
      ≡ false
review_call-writes N o p id approve comment = refl
review_call-writes N o p id reject comment = refl

asks-reads :
    (N : Type 0) (web : Web) (v : View)
    → ((asks N web v).query_fn.method ≡ "GET") × ((asks N web v).query_fn.body ≡ none)
asks-reads N web View.users = (refl, refl)
asks-reads N web _ = (refl, refl)

call_of-writes : {N : Type 0} (e : Event N) → str_eq (call_of e).method "GET" ≡ false
call_of-writes (Event.review_change o p review r) =
    review_call-writes _ o p review.id review.action review.comment
call_of-writes _ = refl

-- The calls of all queries are GET without a body, and the calls of all mutations are not GET: what a
-- query may repeat changes nothing, and what changes something is no query.
pub asks-call_of :
    {N : Type 0} (web : Web) (v : View) (e : Event N)
    → ((asks N web v).query_fn.method ≡ "GET")
      × (((asks N web v).query_fn.body ≡ none) × (str_eq (call_of e).method "GET" ≡ false))
asks-call_of {N} web v e =
    let (method, body) = asks-reads N web v in (method, (body, call_of-writes e))
