-- ===== src/Soar/Guard.antt =====
-- The guard rails of backend/app/soar/executor.py. Python's `ipaddress` is a parameter: the
-- normal form of an address, if a text is one, and the classes that an address is in.
use aegisiq.Prelude.{
  ℕ, String, Bool, not, ◌&&◌, ◌||◌, Option, none, some, List, [], ◌∷◌, map, if◌then◌else◌, str_eq,
  lower, strip, before, after, split, where_rows, any,
}

pub record IpLibrary : Type 0 where
  pub ip_address : String → Option String
  pub is_loopback : String → Bool
  pub is_link_local : String → Bool
  pub is_multicast : String → Bool
  pub is_reserved : String → Bool
  pub is_unspecified : String → Bool
  pub is_private : String → Bool

pub record Settings : Type 0 where
  pub soar_enabled : Bool
  pub soar_execute : Bool
  pub soar_order_ttl_seconds : ℕ
  pub soar_block_private_ranges : Bool
  pub soar_protected_accounts : String
  pub cors_origins_list : List String

pub data Refusal : Type 0 where
  no_target not_an_address loopback reserved console_origin private_address protected_account
        on_protected_list no_agent_verb no_agent :
      Refusal

abbrev pub protected_accounts : List String
protected_accounts = "root" ∷ "administrator" ∷ "admin" ∷ "system" ∷ []

-- the host of an origin: `origin.split("//", 1)[-1].split("/", 1)[0].split(":", 1)[0]`
unfoldable pub origin_host : String → String
origin_host origin = before ":" (before "/" (after "//" origin))

-- `_console_hosts`: the hosts of the origins that are not empty
unfoldable pub console_hosts : Settings → List String
console_hosts settings =
    where_rows (λ host. not (str_eq host "")) (map origin_host settings.cors_origins_list)

unfoldable pub member : String → List String → Bool
member s l = any (str_eq s) l

-- the accounts of SOAR_PROTECTED_ACCOUNTS
unfoldable pub configured_accounts : Settings → List String
configured_accounts settings =
    where_rows (λ a. not (str_eq a ""))
      (map (λ a. lower (strip a)) (split "," settings.soar_protected_accounts))

module _ (ips : IpLibrary) (settings : Settings) where
  -- the tests of an address that was parsed
  unfoldable pub address_refusal : String → Option Refusal
  address_refusal ip =
      if ips.is_loopback ip
      then some loopback
      else if ips.is_link_local ip
          || (ips.is_multicast ip || (ips.is_reserved ip || ips.is_unspecified ip))
      then some reserved
      else if member ip (console_hosts settings)
      then some console_origin
      else if not settings.soar_block_private_ranges && ips.is_private ip
      then some private_address
      else none

  unfoldable pub account_refusal : String → Option Refusal
  account_refusal account =
      if member account protected_accounts
      then some protected_account
      else if member account (configured_accounts settings)
      then some on_protected_list
      else none

  abbrev pub on_address : String → Bool
  on_address action = str_eq action "block_ip" || str_eq action "unblock_ip"

  abbrev pub on_account : String → Bool
  on_account action = str_eq action "disable_user" || str_eq action "enable_user"

  unfoldable pub parsed_refusal : Option String → Option Refusal
  parsed_refusal none = some not_an_address
  parsed_refusal (some ip) = address_refusal ip

  -- the two tests of `_refuse_reason` behind the one for a blank target
  unfoldable pub address_test : String → String → Option Refusal
  unfolding parsed_refusal
  address_test action target =
      if on_address action then parsed_refusal (ips.ip_address (strip target)) else none

  unfoldable pub account_test : String → String → Option Refusal
  account_test action target =
      if on_account action then account_refusal (lower (strip target)) else none

  -- `_refuse_reason`
  unfoldable pub refuse_reason : String → String → Option Refusal
  unfolding address_test account_test
  refuse_reason action target =
      if str_eq (strip target) "" then some no_target else elim (address_test action target) [
        | some refusal ↦ some refusal
        | none ↦ account_test action target
      ]
