-- ===== src/Realtime/Hub.antt =====
-- `EventHub` of backend/app/realtime/hub.py. A socket is a number; the set of connections is a list. A
-- method runs as one step, with two exceptions. `connect` awaits the handshake between its check and the
-- registration, which are two operations here; and `publish`, which runs on worker threads without a lock,
-- takes a number in one step, reads it again in
-- another and appends its message in a third.
use aegisiq.Models.Json.{Json}
use aegisiq.Prelude.{
  ℕ, ◌+◌, String, Bool, true, false, not, Option, none, some, List, [], ◌∷◌, ◌++◌, leb, ◌==◌,
  if◌then◌else◌, length, drop, where_rows, any,
}

pub record Message : Type 0 where
  pub seq : ℕ
  pub event_type : String
  pub at : ℕ
  pub payload : Json

-- the event loop that worker threads schedule broadcasts on
pub data Loop : Type 0 where
  unbound running closed : Loop

pub record Hub : Type 0 where
  pub connections : List ℕ
  pub recent : List Message
  pub loop : Loop
  pub sequence : ℕ

abbrev pub replay_buffer_size : ℕ
replay_buffer_size = 50

abbrev pub max_connections : ℕ
max_connections = 200

abbrev pub empty_hub : Hub
empty_hub = record { connections = []; recent = []; loop = Loop.unbound; sequence = 0 }

unfoldable pub bind_loop : Hub → Hub
bind_loop hub = record hub { loop = Loop.running }

unfoldable pub unbind_loop : Hub → Hub
unbind_loop hub = record hub { loop = Loop.unbound }

-- `len(self._connections) >= MAX_CONNECTIONS` refuses
unfoldable pub has_room : Hub → Bool
has_room hub = not (leb max_connections (length hub.connections))

unfoldable pub is_connected : ℕ → List ℕ → Bool
is_connected ws sockets = any (λ s. s == ws) sockets

-- `self._connections.add(websocket)`
unfoldable pub register : ℕ → Hub → Hub
unfolding is_connected
register ws hub =
    if is_connected ws hub.connections
    then hub
    else record hub { connections = ws ∷ hub.connections }

-- `connect`, when nothing runs during the handshake
unfoldable pub connect : ℕ → Hub → Bool × Hub
unfolding has_room register
connect ws hub = if has_room hub then (true, register ws hub) else (false, hub)

unfoldable pub discard : ℕ → List ℕ → List ℕ
discard ws sockets = where_rows (λ s. not (s == ws)) sockets

unfoldable pub disconnect : ℕ → Hub → Hub
unfolding discard
disconnect ws hub = record hub { connections = discard ws hub.connections }

-- `append` on a deque with the buffer's size
unfoldable pub append_bounded : Message → List Message → List Message
append_bounded m recent =
    let longer = recent ++ m ∷ [] in
    if leb (replay_buffer_size + 1) (length longer) then drop 1 longer else longer

abbrev pub new_message : String → Json → ℕ → ℕ → Message
new_message event_type payload now seq = record {
  seq = seq;
  event_type = event_type;
  at = now;
  payload = payload;
}

-- `self._sequence += 1`, the first step of `publish`
unfoldable pub take_number : Hub → Hub
take_number hub = record hub { sequence = hub.sequence + 1 }

-- `self._recent.append(message)`, the last step; between the two the number is read again
unfoldable pub append_message : Message → Hub → Hub
unfolding append_bounded
append_message m hub = record hub { recent = append_bounded m hub.recent }

-- `publish` of one thread, when no other one runs between its steps: the hub, and the message if a
-- broadcast is scheduled
unfoldable pub publish : String → Json → ℕ → Hub → Hub × Option Message
unfolding take_number append_message
publish event_type payload now hub = (
  append_message (new_message event_type payload now (take_number hub).sequence) (take_number hub),
  elim hub.connections [
    | [] ↦ none
    | ws ∷ sockets ↦ elim hub.loop [
      | Loop.running ↦ some (new_message event_type payload now (hub.sequence + 1))
      | _ ↦ none
    ]
  ],
)

-- the loop of `_broadcast` over a copy of the set, given which sockets the text reaches: those that
-- it was sent to, and the hub
unfoldable pub send_each : (ℕ → Bool) → List ℕ → Hub → List ℕ × Hub
unfolding disconnect
send_each reaches [] hub = ([], hub)
send_each reaches (ws ∷ sockets) hub = elim (reaches ws) [
  | true ↦ let (sent, hub') = send_each reaches sockets hub in (ws ∷ sent, hub')
  | false ↦ send_each reaches sockets (disconnect ws hub)
]

-- `_broadcast`
unfoldable pub broadcast : (ℕ → Bool) → Hub → List ℕ × Hub
unfolding send_each
broadcast reaches hub = send_each reaches hub.connections hub
