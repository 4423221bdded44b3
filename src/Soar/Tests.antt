-- ===== src/Soar/Tests.antt =====
-- Runs of the response engine on one endpoint.
use aegisiq.Models.Alert.{Alert, AlertStatus, Description}
use aegisiq.Models.Log.{Severity}
use aegisiq.Models.Soar.{SoarAction, OrderStatus, EndpointAgent, SoarOrder}
use aegisiq.Soar.Agents.{to_payload, collect_orders}
use aegisiq.Soar.Delivery.{queue, due, agent_of, collect_orders-due}
use aegisiq.Soar.Guard.{IpLibrary, Settings}
use aegisiq.Soar.Guarded.{IsSafe}
use aegisiq.Soar.Histories.{Event, alerted, execute, revoke, agent, history, history-IsSafe}
use aegisiq.Soar.Lifecycle.{poll, report, AllLater, answer_all, answer_all-AllLater}
use aegisiq.Soar.Orders.{Db}
use aegisiq.Soar.Decide.{respond_to_alert, initial_status}
use aegisiq.Soar.Recorded.{Recorded, respond_to_alert-Recorded}
use aegisiq.Models.Soar.{SoarActionStatus}
use aegisiq.Prelude.{
  ℕ, ◌+◌, ◌≤◌, String, ◌≡◌, refl, true, false, ◌||◌, Option, none, some, List, [], ◌∷◌, map,
  if◌then◌else◌, str_eq, length, drop, first, All,
}

-- an address library that knows two addresses
abbrev two_addresses : IpLibrary
two_addresses = record {
  ip_address = λ s. if str_eq s "203.0.113.5" || str_eq s "127.0.0.1" then some s else none;
  is_loopback = λ s. str_eq s "127.0.0.1";
  is_link_local = λ s. false;
  is_multicast = λ s. false;
  is_reserved = λ s. false;
  is_unspecified = λ s. false;
  is_private = λ s. str_eq s "127.0.0.1";
}

abbrev live : Settings
live = record {
  soar_enabled = true;
  soar_execute = true;
  soar_order_ttl_seconds = 600;
  soar_block_private_ranges = false;
  soar_protected_accounts = "svc-backup";
  cors_origins_list = "http://console:5173" ∷ [];
}

abbrev endpoint : EndpointAgent
endpoint = record {
  endpoint_id = "web-1";
  hostname = some "web";
  secret_enc = "";
  enabled = true;
  last_seen_at = none;
  last_seen_ip = none;
}

abbrev block : String → ℕ → SoarOrder
block uid expires = record {
  order_uid = uid;
  endpoint_id = "web-1";
  action = "block_ip";
  target = "203.0.113.5";
  status = OrderStatus.queued;
  soar_action_id = none;
  alert_id = none;
  issued_by = "soar";
  created_at = 0;
  delivered_at = none;
  completed_at = none;
  expires_at = some expires;
  output = none;
}

abbrev queued : Db
queued = record { agents = endpoint ∷ []; actions = []; orders = block "a" 5 ∷ block "b" 50 ∷ [] }

abbrev idle : Db
idle = record { agents = endpoint ∷ []; actions = []; orders = [] }

abbrev attack : Alert
attack = record {
  id = 1;
  timestamp = 1;
  severity = Severity.critical;
  source_ip = some "203.0.113.5";
  destination_ip = none;
  rule_id = 7;
  mitre_id = none;
  kill_chain_phase = none;
  description = Description.brute_force "203.0.113.5" 9 60;
  status = AlertStatus.new;
  dedup_key = some "203.0.113.5";
  log_id = none;
  incident_id = none;
}

abbrev host_of_none : SoarAction → Option String
host_of_none action = none

abbrev next_action : List SoarAction → ℕ
next_action actions = 1 + length actions

answer_all-AllLater_example :
    AllLater queued.orders
      (answer_all (poll "web-1" none 10 ∷ report "web-1" "b" true "ok" 11 ∷ []) queued).orders
answer_all-AllLater_example =
    answer_all-AllLater (poll "web-1" none 10 ∷ report "web-1" "b" true "ok" 11 ∷ []) queued

known : agent_of "web-1" queued ≡ some endpoint
unfolding first str_eq
known = refl

collect_orders-due_example :
    ((collect_orders "web-1" none 10 queued).1.0 ≡ map to_payload (due "web-1" 10 50 queued.orders))
    × (length (collect_orders "web-1" none 10 queued).1.0 ≤ 50)
    × (queue "web-1" (collect_orders "web-1" none 10 queued).1.1.orders
        ≡ drop 50 (queue "web-1" queued.orders))
collect_orders-due_example = collect_orders-due "web-1" none 10 queued endpoint known refl

unknown : agent_of "db-1" queued ≡ none
unfolding first str_eq
unknown = refl

abbrev events : List Event
events =
    alerted attack none none 2
    ∷ execute 1 "uid" 3 "admin"
    ∷ agent (poll "web-1" none 4)
    ∷ revoke "uid" "uid-2" 5 "admin"
    ∷ []

history-IsSafe_example :
    All
      (λ o. IsSafe two_addresses live o.action o.target)
      (history two_addresses live next_action (λ db. "token") host_of_none events idle).orders
history-IsSafe_example =
    history-IsSafe two_addresses live next_action (λ db. "token") host_of_none events idle refl

abbrev record_only : Settings
record_only = record live { soar_execute = false }

respond_to_alert-Recorded_example :
    Recorded record_only attack idle
      (respond_to_alert two_addresses next_action
        (λ db. "token")
        record_only
        attack
        none
        none
        2
        idle).0
      (respond_to_alert two_addresses next_action
        (λ db. "token")
        record_only
        attack
        none
        none
        2
        idle).1
    × (initial_status record_only ≡ SoarActionStatus.simulated)
respond_to_alert-Recorded_example =
    respond_to_alert-Recorded two_addresses next_action (λ db. "token") record_only attack none none
      2 idle refl
