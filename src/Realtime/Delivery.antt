-- ===== src/Realtime/Delivery.antt =====
-- Whom a broadcast of backend/app/realtime/hub.py reaches, and who stays connected.
use aegisiq.Realtime.Hub.{Hub, is_connected, discard, disconnect, send_each, broadcast}
use aegisiq.Prelude.{ℕ, ◌≡◌, refl, Bool, not, ◌&&◌, List, [], ◌∷◌, arith, ◌==◌, where_rows, any}

sent_lem :
    (reaches : ℕ → Bool) (sockets : List ℕ) (hub : Hub)
    → (send_each reaches sockets hub).0 ≡ where_rows reaches sockets
unfolding send_each where_rows
sent_lem reaches [] hub = refl
sent_lem reaches (ws ∷ sockets) hub =
    ground (arith, sent_lem reaches sockets hub, sent_lem reaches sockets (disconnect ws hub))

is_connected-discard :
    (c ws : ℕ) (sockets : List ℕ)
    → is_connected c (discard ws sockets) ≡ (is_connected c sockets && not (c == ws))
unfolding is_connected discard any where_rows
is_connected-discard c ws [] = refl
is_connected-discard c ws (s ∷ sockets) = ground (arith, is_connected-discard c ws sockets)

-- the sockets of a list that the text does not reach
fails : (ℕ → Bool) → List ℕ → ℕ → Bool
fails reaches sockets c = is_connected c sockets && not (reaches c)

kept_lem :
    (reaches : ℕ → Bool) (sockets : List ℕ) (hub : Hub) (c : ℕ)
    → is_connected c (send_each reaches sockets hub).1.connections
      ≡ (is_connected c hub.connections && not (is_connected c sockets && not (reaches c)))
unfolding send_each is_connected any disconnect
kept_lem reaches [] hub c = ground arith
kept_lem reaches (ws ∷ sockets) hub c = ground (
  arith,
  kept_lem reaches sockets hub c,
  kept_lem reaches sockets (disconnect ws hub) c,
  is_connected-discard c ws hub.connections,
)

-- A broadcast is sent to exactly the connected sockets that it reaches, dead ones among them or not;
-- afterwards a socket is connected if and only if it was and the text reached it.
pub broadcast_lem :
    (reaches : ℕ → Bool) (hub : Hub)
    → ((broadcast reaches hub).0 ≡ where_rows reaches hub.connections)
      × ((c : ℕ)
          → is_connected c (broadcast reaches hub).1.connections
            ≡ (is_connected c hub.connections && reaches c))
unfolding broadcast
broadcast_lem reaches hub = (
  sent_lem reaches hub.connections hub,
  λ c. ground (arith, kept_lem reaches hub.connections hub c),
)
