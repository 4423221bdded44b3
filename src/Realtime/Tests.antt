-- ===== src/Realtime/Tests.antt =====
-- The hub and the handshake at concrete inputs.
use aegisiq.Auth.Accounts.{Accounts}
use aegisiq.Auth.Session.{Request, allowed, get_current_user}
use aegisiq.Auth.Tokens.{Claims, Jose}
use aegisiq.Models.Json.{null}
use aegisiq.Models.User.{User, UserRole}
use aegisiq.Realtime.Capacity.{
  idle, begin, accepted, beginning, accepting, Reach, stays, then_step, connections-bound,
}
use aegisiq.Realtime.Hub.{Hub, empty_hub}
use aegisiq.Realtime.InTurn.{Content, content, publish_all, Consecutive, publish_all-Consecutive}
use aegisiq.Realtime.Replay.{
  Step, numbered, built, appended, connected, run_steps, takes_number, message_log, newest,
  run_steps-newest,
}
use aegisiq.Realtime.Stream.{stream_user, stream_user_iff}
use aegisiq.Prelude.{
  ℕ, ◌+◌, ◌≤◌, ◌≡◌, refl, ◌↔◌, Bool, true, false, none, some, List, [], ◌∷◌, map, arith, ◌==◌,
  str_eq, length, count_if,
}

-- Two threads take their numbers before either builds its message, and they append in the other order.
abbrev steps : List Step
steps =
    numbered
    ∷ numbered
    ∷ connected 7
    ∷ built "log" null 1
    ∷ built "alert" null 2
    ∷ appended 0
    ∷ appended 0
    ∷ []

run_steps-newest_example :
    ((run_steps steps empty_hub []).recent ≡ newest 50 (message_log 0 [] steps))
    × ((run_steps steps empty_hub []).sequence ≡ count_if takes_number steps)
run_steps-newest_example = run_steps-newest steps

-- both messages have the second number
same_number : map (λ m. m.seq) (message_log 0 [] steps) ≡ 2 ∷ 2 ∷ []
unfolding message_log aegisiq.Realtime.Places.at aegisiq.Realtime.Places.remove_at
same_number = refl

abbrev two_events : List Content
two_events = ("log", (null, 1)) ∷ ("alert", (null, 2)) ∷ []

publish_all-Consecutive_example :
    ((publish_all two_events empty_hub).sequence ≡ 2)
    × (map content (publish_all two_events empty_hub).recent ≡ two_events)
    × Consecutive 0 (publish_all two_events empty_hub).recent
publish_all-Consecutive_example = publish_all-Consecutive two_events

one_connected : Reach 1 idle (accepted 0 (begin 7 idle))
one_connected =
    then_step (then_step stays (beginning idle 7 (omega arith))) (accepting (begin 7 idle) 0)

connections-bound_example : length (accepted 0 (begin 7 idle)).hub.connections ≤ 199 + 1
connections-bound_example = connections-bound 1 (accepted 0 (begin 7 idle)) one_connected

abbrev two_sockets : Hub
two_sockets = record empty_hub { connections = 7 ∷ 8 ∷ [] }

abbrev is_seven : ℕ → Bool
is_seven n = n == 7

abbrev eve : User
eve = record {
  id = 1;
  username = "eve";
  password_hash = "";
  role = UserRole.security_analyst;
  last_login = none;
  is_active = true;
  failed_login_count = 0;
  locked_until = none;
  token_version = 1;
  password_changed_at = none;
}

abbrev claims : Claims
claims = record {
  sub = some "eve";
  role = none;
  mfa_pending = false;
  ver = some 1;
  issued = 0;
  expires = 9;
}

abbrev jose : Jose
jose = record { encode = λ c. "t"; decode = λ now token. some claims }

abbrev tables : Accounts
tables = record { users = eve ∷ []; mfas = [] }

abbrev request : Request
request = record {
  method = "GET";
  authorization = some "Bearer t";
  bearer = some "t";
  session_cookie = none;
  csrf_cookie = none;
  csrf_header = none;
}

stream_user_iff_example :
    (stream_user jose 1 tables (some "t") none ≡ some eve)
    ↔ (get_current_user jose 1 request tables ≡ allowed eve)
unfolding aegisiq.Prelude.str_eq
stream_user_iff_example = stream_user_iff jose 1 tables "t" none request eve refl refl
