-- ===== src/Transport/Tests.antt =====
-- A policy, a request that creates its sandbox, and what is learned of the session.
use vigilo.Prelude.{◌≡◌, refl, true, false, [], ◌∷◌, Option, none, some, String, codes}
use vigilo.Prelude.Options.{◌>>=◌, ◌>>◌, reject_if}
use vigilo.Json.{Json, boolean, number, string, object, object_of, property}
use vigilo.Transport.Policy.{
  Policy, create, cleanup, Call, Body, is_name, new_policy, parsed_body, is_exact_create,
  is_deny_all, strip_prefix, is_command_with, is_session_operation, classify_create,
  classify_update, classify_lookup, classify_session, present, classify, confirm, only_value,
  asks_stop, asks_create, asks_update, asks_lookup, read_metadata, observe_lookup,
}
use vigilo.Transport.Safety.{IsAdmitted, classify-IsAdmitted, here, confirms, Learns-session}

runs : Unit {0}
unfolding ◌>>=◌ ◌>>◌ reject_if property is_name new_policy parsed_body is_exact_create is_deny_all
    strip_prefix is_command_with is_session_operation classify_create classify_update
    classify_lookup classify_session classify confirm asks_stop asks_create asks_update asks_lookup
    read_metadata observe_lookup
runs = tt

abbrev policy : Policy
policy = record {
  binding = record { name = "box"; project_id = "prj"; team_id = "team"; session_id = none };
  recovery = false;
  runtime_ms = 60000;
  vcpus = 2;
  session_id = none;
}

abbrev body : Json
body = object (
    object_of (
      ("name", string "box")
      ∷ ("projectId", string "prj")
      ∷ ("image", string "vercel/sandbox/node:24")
      ∷ ("persistent", boolean false)
      ∷ ("timeout", number 60000)
      ∷ ("resources", object (object_of (("vcpus", number 2) ∷ [])))
      ∷ []))

abbrev call : String → String → Option Body → Call
call method pathname body = record {
  url = record {
    origin = "https://vercel.com";
    username = "";
    password = "";
    hash = "";
    pathname = codes pathname;
    params = ("teamId", "team") ∷ [];
  };
  method = method;
  body = body;
}

abbrev creation : Call
creation = call "POST" "/api/v3/sandboxes" (some (record { bytes = 200; parsed = some body }))

creates_box : classify codes policy creation ≡ some create
unfolding runs
creates_box = refl

classify-IsAdmitted_example :
    (creation.url.origin ≡ "https://vercel.com")
    × (only_value "teamId" policy.binding.team_id creation.url ≡ true)
    × IsAdmitted codes policy creation create
classify-IsAdmitted_example = classify-IsAdmitted codes policy creation creates_box

abbrev confirmed : Policy
confirmed = record policy { session_id = some "s1" }

stops_box :
    classify codes confirmed (call "POST" "/api/v2/sandboxes/sessions/s1/stop" none) ≡ some cleanup
unfolding runs
stops_box = refl

-- A recovery permit may not create.
no_recovery : classify codes (record policy { recovery = true }) creation ≡ none
unfolding runs
no_recovery = refl

again : confirm "box" "s1" confirmed ≡ some confirmed
unfolding runs
again = refl

other_session : confirm "box" "s2" confirmed ≡ none
unfolding runs
other_session = refl

Learns-session_example : present confirmed.session_id ≡ some "s1"
Learns-session_example = Learns-session "s1" (confirms "box" "s1" here again) refl
