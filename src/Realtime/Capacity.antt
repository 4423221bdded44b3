-- ===== src/Realtime/Capacity.antt =====
-- How many connections backend/app/realtime/hub.py can have. `connect` awaits the handshake between its
-- check and the registration, so that other handshakes may begin and end in between.
use aegisiq.Realtime.Hub.{
  Hub, Message, has_room, register, disconnect, discard, take_number, append_message, empty_hub,
}
use aegisiq.Realtime.Places.{at, remove_at}
use aegisiq.Prelude.{
  ℕ, zero, suc, ◌+◌, ◌≤◌, ◌<◌, ◌≡◌, inl, inr, not, none, some, List, [], ◌∷◌, arith, ◌==◌,
  if◌then◌else◌, Option-cases, length, length-where_rows-le,
}

-- The hub, with the sockets that passed the check and are in their handshake.
pub record Server : Type 0 where
  pub hub : Hub
  pub pending : List ℕ

-- the check of `connect`, before its handshake
unfoldable pub begin : ℕ → Server → Server
unfolding has_room
begin ws s = if has_room s.hub then record s { pending = ws ∷ s.pending } else s

-- the handshake of the socket at a place has ended: it is registered, or the error leaves `connect`
unfoldable pub accepted : ℕ → Server → Server
unfolding at remove_at register
accepted n s = elim (at n s.pending) [
  | none ↦ s
  | some ws ↦ record { hub = register ws s.hub; pending = remove_at n s.pending }
]

-- A step of the server, with at most `k` handshakes at a time.
pub data Step (k : ℕ) : Server → Server → Type 0 where
  beginning : (s : Server) (ws : ℕ) → length s.pending < k → Step k s (begin ws s)
  accepting : (s : Server) (n : ℕ) → Step k s (accepted n s)
  failing : (s : Server) (n : ℕ) → Step k s (record s { pending = remove_at n s.pending })
  leaving : (s : Server) (ws : ℕ) → Step k s (record s { hub = disconnect ws s.hub })
  numbering : (s : Server) → Step k s (record s { hub = take_number s.hub })
  appending : (s : Server) (m : Message) → Step k s (record s { hub = append_message m s.hub })

-- What the server can become.
pub data Reach (k : ℕ) (s : Server) : Server → Type 0 where
  stays : Reach k s s
  then_step : {t u : Server} → Reach k s t → Step k t u → Reach k s u

abbrev pub idle : Server
idle = record { hub = empty_hub; pending = [] }

abbrev Bounded : ℕ → Server → Type 0
Bounded k s = length s.hub.connections + length s.pending ≤ 199 + k

length-remove_at : (n : ℕ) (xs : List ℕ) → length (remove_at n xs) ≤ length xs
unfolding remove_at
length-remove_at n [] = omega arith
length-remove_at zero (x ∷ xs) = omega arith
length-remove_at (suc n) (x ∷ xs) = omega (arith, length-remove_at n xs)

length-remove_at-present :
    (n : ℕ) (xs : List ℕ) (ws : ℕ) → at n xs ≡ some ws → length (remove_at n xs) + 1 ≡ length xs
unfolding at remove_at
length-remove_at-present n [] ws h = absurd (ground (arith, h))
length-remove_at-present zero (x ∷ xs) ws h = omega arith
length-remove_at-present (suc n) (x ∷ xs) ws h = omega (arith, length-remove_at-present n xs ws h)

length-register :
    (ws : ℕ) (hub : Hub) → length (register ws hub).connections ≤ length hub.connections + 1
unfolding register
length-register ws hub = ground arith

accepted-Bounded : (k n : ℕ) (s : Server) → Bounded k s → Bounded k (accepted n s)
unfolding accepted
accepted-Bounded k n s b = elim (Option-cases (at n s.pending)) [
  | inl nothing ↦ rw (nothing, accepted) b
  | inr (ws, found) ↦
      rw (found, accepted)
        (omega (arith, b, length-register ws s.hub, length-remove_at-present n s.pending ws found))
]

Step-Bounded : {k : ℕ} {s t : Server} → Step k s t → Bounded k s → Bounded k t
unfolding begin has_room disconnect discard take_number append_message
Step-Bounded {k} (beginning s ws h) b = ground (arith, h, b)
Step-Bounded {k} (accepting s n) b = accepted-Bounded k n s b
Step-Bounded (failing s n) b = omega (arith, b, length-remove_at n s.pending)
Step-Bounded (leaving s ws) b =
    omega (arith, b, length-where_rows-le (λ c. not (c == ws)) s.hub.connections)
Step-Bounded (numbering s) b = b
Step-Bounded (appending s m) b = b

Reach-Bounded : {k : ℕ} {s t : Server} → Bounded k s → Reach k s t → Bounded k t
Reach-Bounded b stays = b
Reach-Bounded b (then_step r step) = Step-Bounded step (Reach-Bounded b r)

-- With at most `k` handshakes at a time, a hub that starts empty never has more than 199 + k
-- connections, whatever handshakes begin, end and fail, sockets leave and messages are published, in
-- any order. With one handshake at a time this is the hub's limit of 200.
pub connections-bound : (k : ℕ) (s : Server) → Reach k idle s → length s.hub.connections ≤ 199 + k
connections-bound k s r = omega (arith, Reach-Bounded {k = k} (omega arith) r)
