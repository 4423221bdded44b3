-- ===== src/Soar/Routes.antt =====
-- The containment routes of backend/app/api/routes/response.py that an administrator calls. The
-- audit rows that they write are left out.
use aegisiq.Models.Soar.{SoarAction, SoarOrder}
use aegisiq.Soar.Guard.{IpLibrary, Settings}
use aegisiq.Soar.Orders.{Db, Verdict, executed, refused, execute_action, revoke}
use aegisiq.Prelude.{ℕ, String, Option, none, some, ◌==◌, str_eq, first}

-- 200, 404 and 409
pub data Reply : Type 0 where
  done not_found conflict : Reply

module _ (ips : IpLibrary) (settings : Settings) (host_of : SoarAction → Option String) where
  unfoldable pub reply_of : Verdict × Db → Reply × Db
  reply_of (executed uid endpoint, db) = (done, db)
  reply_of (refused refusal, db) = (conflict, db)

  -- `execute_now`
  unfoldable pub execute_now : ℕ → String → ℕ → String → Db → Reply × Db
  unfolding reply_of
  execute_now id uid now user db = elim (first (λ (a : SoarAction). a.id == id) db.actions) [
    | none ↦ (not_found, db)
    | some action ↦ reply_of (execute_action ips settings uid now user (host_of action) action db)
  ]

  unfoldable pub undone : Option SoarOrder × Db → Reply × Db
  undone (none, db) = (conflict, db)
  undone (some inverse, db) = (done, db)

  -- `revoke_order`
  unfoldable pub revoke_order : String → String → ℕ → String → Db → Reply × Db
  unfolding undone
  revoke_order order_uid uid now user db =
      elim (first (λ (o : SoarOrder). str_eq o.order_uid order_uid) db.orders) [
        | none ↦ (not_found, db)
        | some order ↦ undone (revoke ips settings uid now user order db)
      ]
