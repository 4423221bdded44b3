-- ===== src/Soar/Containment.antt =====
-- The guard rails over whole histories: administrators, alerts and agents in any order.
use aegisiq.Models.Soar.{SoarAction, SoarOrder, EndpointAgent}
use aegisiq.Soar.Guard.{IpLibrary, Settings, refuse_reason}
use aegisiq.Soar.Guarded.{Passes, IsGuarded, queue-IsGuarded, execute_action-IsGuarded}
use aegisiq.Soar.Lifecycle.{AgentCall, answer, answer-AllLater, AllLater}
use aegisiq.Soar.Orders.{Verdict, executed, refused, Db, revoke, inverse_action, undo}
use aegisiq.Soar.Routes.{execute_now, revoke_order, reply_of, undone}
use aegisiq.Prelude.{
  ℕ, String, ◌≡◌, refl, inl, inr, true, Option, none, some, List, [], ◌∷◌, arith, ◌==◌, str_eq,
  str_eq_iff, Bool-cases, Option-cases, first, All, first-All,
}

module _ (ips : IpLibrary) (settings : Settings) where
  unblock_passes :
      (target : String)
      → refuse_reason ips settings "block_ip" target ≡ none
      → refuse_reason ips settings "unblock_ip" target ≡ none
  unfolding refuse_reason str_eq
  unblock_passes target p = p

  enable_passes :
      (target : String)
      → refuse_reason ips settings "disable_user" target ≡ none
      → refuse_reason ips settings "enable_user" target ≡ none
  unfolding refuse_reason str_eq
  enable_passes target p = p

  -- an order and its inverse are subject to the same tests
  inverse_passes :
      (action target inverse : String)
      → inverse_action action ≡ some inverse
      → refuse_reason ips settings action target ≡ none
      → refuse_reason ips settings inverse target ≡ none
  unfolding inverse_action
  inverse_passes action target inverse e p = elim (Bool-cases (str_eq action "block_ip")) [
    | inl block ↦
        let is_block = (str_eq_iff action "block_ip").0 block in
        let unblock : inverse ≡ "unblock_ip" = ground (arith, e, block) in
        rw unblock (unblock_passes target (rw is_block at p))
    | inr other ↦
        let disable : str_eq action "disable_user" ≡ true = ground (arith, e, other) in
        let enable : inverse ≡ "enable_user" = ground (arith, e, other) in
        rw enable (enable_passes target (rw ((str_eq_iff action "disable_user").0 disable) at p))
  ]

  later-Passes :
      (rows rows' : List SoarOrder)
      → AllLater rows rows'
      → All (Passes ips settings) rows
      → All (Passes ips settings) rows'
  later-Passes [] [] l h = tt
  later-Passes [] (o' ∷ rows') l h = absurd l
  later-Passes (o ∷ rows) [] l h = absurd l
  later-Passes (o ∷ rows) (o' ∷ rows') l h =
      (rw (l.0.action, l.0.target) h.0, later-Passes rows rows' l.1 h.1)

  undo-IsGuarded :
      (uid : String) (now : ℕ) (by : String) (order : SoarOrder) (inverse : Option String)
      (agent : Option EndpointAgent) (db : Db)
      → ((i : String) → inverse ≡ some i → refuse_reason ips settings i order.target ≡ none)
      → IsGuarded ips settings db
      → IsGuarded ips settings (undo ips settings uid now by order inverse agent db).1
  unfolding undo
  undo-IsGuarded uid now by order none agent db p g = g
  undo-IsGuarded uid now by order (some inverse) none db p g = g
  undo-IsGuarded uid now by order (some inverse) (some agent) db p g =
      queue-IsGuarded ips settings _ db (p inverse refl) g

  revoke-IsGuarded :
      (uid : String) (now : ℕ) (by : String) (order : SoarOrder) (db : Db)
      → Passes ips settings order
      → IsGuarded ips settings db
      → IsGuarded ips settings (revoke ips settings uid now by order db).1
  unfolding revoke
  revoke-IsGuarded uid now by order db p g =
      undo-IsGuarded uid now by order _ _ db (λ i e. inverse_passes order.action order.target i e p)
        g

  module _ (host_of : SoarAction → Option String) where
    reply-IsGuarded :
        (r : Verdict × Db)
        → IsGuarded ips settings r.1
        → IsGuarded ips settings (reply_of ips settings host_of r).1
    unfolding reply_of
    reply-IsGuarded (executed uid endpoint, db) g = g
    reply-IsGuarded (refused refusal, db) g = g

    undone-IsGuarded :
        (r : Option SoarOrder × Db)
        → IsGuarded ips settings r.1
        → IsGuarded ips settings (undone ips settings host_of r).1
    unfolding undone
    undone-IsGuarded (none, db) g = g
    undone-IsGuarded (some inverse, db) g = g

    pub execute_now-IsGuarded :
        (id : ℕ) (uid : String) (now : ℕ) (user : String) (db : Db)
        → IsGuarded ips settings db
        → IsGuarded ips settings (execute_now ips settings host_of id uid now user db).1
    unfolding execute_now
    execute_now-IsGuarded id uid now user db g =
        elim (Option-cases (first (λ (a : SoarAction). a.id == id) db.actions)) [
          | inl unknown ↦ rw (unknown, execute_now) g
          | inr (action, found) ↦
              rw (found, execute_now)
                (reply-IsGuarded _
                  (execute_action-IsGuarded ips settings uid now user (host_of action) action db g))
        ]

    pub revoke_order-IsGuarded :
        (order_uid uid : String) (now : ℕ) (user : String) (db : Db)
        → IsGuarded ips settings db
        → IsGuarded ips settings (revoke_order ips settings host_of order_uid uid now user db).1
    unfolding revoke_order
    revoke_order-IsGuarded order_uid uid now user db g =
        elim (Option-cases (first (λ (o : SoarOrder). str_eq o.order_uid order_uid) db.orders)) [
          | inl unknown ↦ rw (unknown, revoke_order) g
          | inr (order, found) ↦
              rw (found, revoke_order)
                (undone-IsGuarded _ (
                  revoke-IsGuarded uid now user order db
                    (first-All (Passes ips settings)
                      (λ (o : SoarOrder). str_eq o.order_uid order_uid) db.orders order g found)
                    g))
        ]

  pub answer-IsGuarded :
      (call : AgentCall) (db : Db)
      → IsGuarded ips settings db
      → IsGuarded ips settings (answer call db)
  answer-IsGuarded call db g =
      later-Passes db.orders (answer call db).orders (answer-AllLater call db) g
