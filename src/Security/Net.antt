-- ===== src/Security/Net.antt =====
-- backend/app/security/net.py: whom a request counts against. `ipaddress` is a parameter: the printed
-- address of a text that names one.
use aegisiq.Prelude.{
  String, ◌≡◌, ap, ◌∙◌, Bool, true, false, Option, none, some, List, [], ◌∷◌, arith, if◌then◌else◌,
  str_eq, truthy, strip, split,
}

pub record Peer : Type 0 where
  -- the headers X-Forwarded-For and X-Real-IP, and the other end of the connection
  pub forwarded : Option String
  pub real_ip : Option String
  pub host : Option String

module _ (ip_address : String → Option String) where
  unfoldable pub valid_ip : String → Option String
  valid_ip candidate = ip_address (strip candidate)

  unfoldable pub first_valid : List String → Option String
  unfolding valid_ip
  first_valid [] = none
  first_valid (part ∷ parts) = elim (valid_ip part) [ some ip ↦ some ip | none ↦ first_valid parts ]

  abbrev pub text_or_empty : Option String → String
  text_or_empty none = ""
  text_or_empty (some s) = s

  -- what the headers name
  unfoldable pub from_headers : Peer → Option String
  unfolding first_valid valid_ip
  from_headers r = elim (first_valid (split "," (text_or_empty r.forwarded))) [
    | some ip ↦ some ip
    | none ↦ if truthy r.real_ip then valid_ip (text_or_empty r.real_ip) else none
  ]

  -- what the connection names
  unfoldable pub from_connection : Peer → Option String
  unfolding valid_ip
  from_connection r = elim r.host [
    | none ↦ none
    | some host ↦
        if str_eq host ""
        then none
        else elim (valid_ip host) [ some ip ↦ some ip | none ↦ some host ]
  ]

  -- `client_ip`, given `TRUST_PROXY_HEADERS`
  unfoldable pub client_ip : Bool → Peer → Option String
  unfolding from_headers from_connection
  client_ip trusting r =
      if trusting
      then elim (from_headers r) [ some ip ↦ some ip | none ↦ from_connection r ]
      else from_connection r

  -- `rate_limit_identity`
  unfoldable pub rate_limit_identity : Bool → Peer → String
  unfolding client_ip
  rate_limit_identity trusting r = elim (client_ip trusting r) [
    | none ↦ "unknown"
    | some ip ↦ if str_eq ip "" then "unknown" else ip
  ]

  first-address :
      (candidate ip : String) (entries : List String)
      → valid_ip candidate ≡ some ip
      → first_valid (candidate ∷ entries) ≡ some ip
  unfolding first_valid valid_ip
  first-address candidate ip entries h = ground (arith, h)

  named_by :
      (r : Peer) (ip : String)
      → first_valid (split "," (text_or_empty r.forwarded)) ≡ some ip
      → str_eq ip "" ≡ false
      → rate_limit_identity true r ≡ ip
  unfolding rate_limit_identity client_ip from_headers first_valid valid_ip
  named_by r ip h named = ground (arith, h, named)

  -- When the proxy headers are trusted, the first candidate of X-Forwarded-For decides whom a request counts
  -- against, if it is an address: neither the connection nor the other headers matter.
  pub rate_limit_identity-forwarded :
      (r : Peer) (forwarded candidate ip : String) (entries : List String)
      → r.forwarded ≡ some forwarded
      → split "," forwarded ≡ candidate ∷ entries
      → valid_ip candidate ≡ some ip
      → str_eq ip "" ≡ false
      → rate_limit_identity true r ≡ ip
  rate_limit_identity-forwarded r forwarded candidate ip entries sent parts valid named =
      named_by r ip
        (ap (λ o. first_valid (split "," (text_or_empty o))) sent
          ∙ (ap first_valid parts ∙ first-address candidate ip entries valid))
        named
