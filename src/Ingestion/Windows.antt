-- ===== src/Ingestion/Windows.antt =====
-- `_parse_windows_event` and `_parse_windows_datetime` of backend/app/ingestion/normalizer.py.
use Prim.Native.Char.{code}
use aegisiq.Ingestion.Dates.{words, meridiem, order_date, three_numbers, datetime, full_hour}
use aegisiq.Ingestion.Regex.{Regex, group, int, last}
use aegisiq.Models.Json.{boolean, number, text, Fields, end, field}
use aegisiq.Models.Log.{Severity}
use aegisiq.Prelude.{
  ℕ, String, Bool, true, false, ◌||◌, Option, none, some, List, [], ◌∷◌, ◌==◌, if◌then◌else◌,
  str_eq, is_some, lower, upper, strip, contains, join, split, decimal, any,
}

-- `_WINDOWS_EVENT_MAP`
abbrev pub windows_event_map : List (ℕ × (String × Severity))
windows_event_map =
    (4624, ("authentication_success", Severity.low))
    ∷ (4625, ("authentication_failure", Severity.medium))
    ∷ (4634, ("authentication_success", Severity.low))
    ∷ (4648, ("authentication_success", Severity.low))
    ∷ (4672, ("privilege_related", Severity.low))
    ∷ (4720, ("privilege_related", Severity.medium))
    ∷ (4726, ("privilege_related", Severity.medium))
    ∷ (4732, ("privilege_related", Severity.medium))
    ∷ (4756, ("privilege_related", Severity.medium))
    ∷ (4740, ("authentication_failure", Severity.medium))
    ∷ (4776, ("authentication_failure", Severity.medium))
    ∷ (1102, ("privilege_related", Severity.high))
    ∷ (7045, ("privilege_related", Severity.medium))
    ∷ []

unfoldable pub mapped : ℕ → List (ℕ × (String × Severity)) → Option (String × Severity)
mapped n [] = none
mapped n ((k, v) ∷ table) = let later = mapped n table in if k == n then some v else later

-- `WINDOWS_SERVICE_ACCOUNTS`
abbrev pub windows_service_accounts : List String
windows_service_accounts =
    "system" ∷ "local service" ∷ "network service" ∷ "localsystem" ∷ "nt authority\\system"
    ∷ "nt authority" ∷ "-" ∷ "null sid" ∷ []

unfoldable pub ends_in_dollar : String → Bool
ends_in_dollar String.[] = false
ends_in_dollar (String.◌∷◌ c String.[]) = code c == 36
ends_in_dollar (String.◌∷◌ c (String.◌∷◌ d s)) = ends_in_dollar (String.◌∷◌ d s)

-- What a parser of raw lines finds.
pub record Parsed : Type 0 where
  pub event_type : String
  pub severity : Severity
  pub username : Option String
  pub source_ip : Option String
  pub event_id : Option ℕ
  pub extra : Fields
  pub event_time : Option ℕ
  pub destination_port : Option ℕ

abbrev pub number_or_zero : Option String → ℕ
number_or_zero none = 0
number_or_zero (some s) = elim (int s) [ none ↦ 0 | some n ↦ n ]

module _ (re : Regex) where
  unfoldable pub time_of : String → ℕ × (ℕ × ℕ)
  unfolding full_hour
  time_of time_part = elim (re.search "(\\d{1,2}):(\\d{2})(?::(\\d{2}))?" time_part) [
    | none ↦ (0, (0, 0))
    | some m ↦ (
      full_hour (upper time_part) (number_or_zero (m "1")),
      (number_or_zero (m "2"), number_or_zero (m "3")),
    )
  ]

  unfoldable pub read_date : String → String → Option ℕ
  unfolding three_numbers order_date time_of
  read_date date_part time_part =
      elim (three_numbers (split (if contains "/" date_part then "/" else "-") date_part)) [
        | none ↦ none
        | some (a, (b, c)) ↦ elim (order_date a b c) [
          | none ↦ none
          | some (year, (month, day)) ↦
              let (hour, (minute, second)) = time_of time_part in
              datetime year month day hour minute second
        ]
      ]

  -- `_parse_windows_datetime`
  unfoldable pub parse_windows_datetime : String → Option ℕ
  unfolding words meridiem read_date
  parse_windows_datetime raw_log =
      elim (re.search
        "Date and Time\\s*[=:]\\s*([0-9]{1,4}[/\\-][0-9]{1,2}[/\\-][0-9]{1,4}[^|\\r\\n]*)"
        raw_log) [
          | none ↦ none
          | some m ↦ elim (words (meridiem (strip (group "1" m)))) [
            | [] ↦ none
            | date_part ∷ rest ↦ read_date date_part (join " " rest)
          ]
        ]

  -- the last account name, unless it is empty or a dash
  unfoldable pub account_of : String → Option String
  account_of raw_log = elim (last (re.findall "Account Name:\\s*([^\\r\\n\\t|]+)" raw_log)) [
    | none ↦ none
    | some name ↦
        let stripped = strip name in
        if str_eq stripped "" || str_eq stripped "-" then none else some stripped
  ]

  unfoldable pub logon_type_of : String → Option ℕ
  logon_type_of raw_log = elim (re.search "Logon Type:\\s*(\\d+)" raw_log) [
    | none ↦ none
    | some m ↦ int (group "1" m)
  ]

  unfoldable pub network_address_of : String → Option String
  network_address_of raw_log =
      elim (re.search "Source Network Address:\\s*([0-9a-fA-F:.]+)" raw_log) [
        | none ↦ none
        | some m ↦
            let candidate = strip (group "1" m) in
            if any (str_eq candidate) ("-" ∷ "::1" ∷ "127.0.0.1" ∷ "" ∷ [])
            then none
            else some candidate
      ]

  unfoldable pub domain_of : String → Option String
  domain_of raw_log = elim (last (re.findall "Account Domain:\\s*([^\\r\\n\\t|]+)" raw_log)) [
    | none ↦ none
    | some name ↦ some (strip name)
  ]

  unfoldable pub is_service_account : Option String → Bool
  unfolding ends_in_dollar
  is_service_account none = true
  is_service_account (some username) =
      let account = lower (strip username) in
      any (str_eq account) windows_service_accounts
      || (ends_in_dollar account || str_eq username "")

  unfoldable pub with_logon_type : Option ℕ → Fields → Fields
  with_logon_type none extra = extra
  with_logon_type (some n) extra = field "logon_type" (number (decimal n)) extra

  unfoldable pub with_domain : Option String → Fields
  with_domain domain = elim domain [
    | none ↦ end
    | some name ↦ if str_eq name "" then end else field "account_domain" (text name) end
  ]

  unfoldable pub windows_parsed : ℕ → String → String × Severity → Parsed
  unfolding account_of network_address_of is_service_account with_logon_type with_domain domain_of
      logon_type_of parse_windows_datetime
  windows_parsed event_id raw_log (event_type, severity) = record {
    event_type = event_type;
    severity = severity;
    username = account_of raw_log;
    source_ip = network_address_of raw_log;
    event_id = some event_id;
    extra = field "platform" (text "windows") (
        field "windows_event_id" (number (decimal event_id)) (
          field "is_service_account" (boolean (is_service_account (account_of raw_log)))
            (with_logon_type (logon_type_of raw_log) (with_domain (domain_of raw_log)))));
    event_time = parse_windows_datetime raw_log;
    destination_port = none;
  }

  -- `_looks_like_windows_event`
  unfoldable pub looks_like_windows_event : String → Bool
  looks_like_windows_event raw_log =
      is_some (re.search_ignoring_case "Event\\s*ID\\s*[=:]\\s*\\d+" raw_log)

  -- `_parse_windows_event`
  unfoldable pub parse_windows_event : String → Option Parsed
  unfolding mapped windows_parsed
  parse_windows_event raw_log =
      elim (re.search_ignoring_case "Event\\s*ID\\s*[=:]\\s*(\\d+)" raw_log) [
        | none ↦ none
        | some m ↦ elim (int (group "1" m)) [
          | none ↦ none
          | some event_id ↦ some (
              windows_parsed event_id raw_log (elim (mapped event_id windows_event_map) [
                | none ↦ ("privilege_related", Severity.low)
                | some known ↦ known
              ]))
        ]
      ]
