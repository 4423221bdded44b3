-- ===== src/Realtime/InTurn.antt =====
-- Threads that publish through backend/app/realtime/hub.py in turn: no step of another thread comes
-- between the steps of one.
use aegisiq.Models.Json.{Json}
use aegisiq.Realtime.Hub.{Hub, Message, take_number, append_message, publish, empty_hub}
use aegisiq.Realtime.Places.{at, remove_at}
use aegisiq.Realtime.Replay.{
  Step, numbered, built, appended, run_steps, message_log, takes_number, run_steps-newest,
}
use aegisiq.Prelude.{
  ℕ, zero, suc, ◌+◌, ◌-◌, ◌≤◌, String, ◌≡◌, refl, sym, ap, ◌∙◌, List, [], ◌∷◌, map, arith, length,
  drop, count_if, length-map,
}

-- what a thread publishes: the type of the event, its payload and the instant
abbrev pub Content : Type 0
Content = String × (Json × ℕ)

abbrev pub content : Message → Content
content m = (m.event_type, (m.payload, m.at))

unfoldable pub publish_all : List Content → Hub → Hub
unfolding publish
publish_all [] hub = hub
publish_all ((event_type, (payload, now)) ∷ contents) hub =
    publish_all contents (publish event_type payload now hub).0

-- Messages whose numbers go on from a number without a gap.
unfoldable pub Consecutive : ℕ → List Message → Type 0
Consecutive n [] = Unit
Consecutive n (m ∷ ms) = (m.seq ≡ n + 1) × Consecutive (n + 1) ms

-- the steps of the threads
unfoldable in_turn : List Content → List Step
in_turn [] = []
in_turn ((event_type, (payload, now)) ∷ contents) =
    numbered ∷ built event_type payload now ∷ appended 0 ∷ in_turn contents

publish_all-in_turn :
    (contents : List Content) (hub : Hub)
    → publish_all contents hub ≡ run_steps (in_turn contents) hub []
unfolding publish_all run_steps in_turn publish take_number append_message at remove_at
publish_all-in_turn [] hub = refl
publish_all-in_turn ((event_type, (payload, now)) ∷ contents) hub =
    publish_all-in_turn contents (publish event_type payload now hub).0

in_turn-Consecutive :
    (n : ℕ) (contents : List Content) → Consecutive n (message_log n [] (in_turn contents))
unfolding Consecutive message_log in_turn at remove_at
in_turn-Consecutive n [] = tt
in_turn-Consecutive n ((event_type, (payload, now)) ∷ contents) =
    (refl, in_turn-Consecutive (n + 1) contents)

in_turn-content :
    (n : ℕ) (contents : List Content) → map content (message_log n [] (in_turn contents)) ≡ contents
unfolding message_log in_turn at remove_at
in_turn-content n [] = refl
in_turn-content n ((event_type, (payload, now)) ∷ contents) =
    ap (λ later. (event_type, (payload, now)) ∷ later) (in_turn-content (n + 1) contents)

in_turn-takes_number :
    (contents : List Content) → count_if takes_number (in_turn contents) ≡ length contents
unfolding in_turn count_if takes_number
in_turn-takes_number [] = refl
in_turn-takes_number ((event_type, (payload, now)) ∷ contents) =
    omega (arith, in_turn-takes_number contents)

Consecutive-drop :
    (k n last : ℕ) (ms : List Message)
    → last ≡ n + k
    → k ≤ length ms
    → Consecutive n ms
    → Consecutive last (drop k ms)
unfolding Consecutive
Consecutive-drop zero n last ms e h c = let same : last ≡ n = omega (arith, e) in rw same c
Consecutive-drop (suc k) n last [] e h c = tt
Consecutive-drop (suc k) n last (m ∷ ms) e h c =
    Consecutive-drop k (n + 1) last ms (omega (arith, e)) (omega (arith, h)) c.1

map-drop : (k : ℕ) (ms : List Message) → map content (drop k ms) ≡ drop k (map content ms)
map-drop zero ms = refl
map-drop (suc k) [] = refl
map-drop (suc k) (m ∷ ms) = map-drop k ms

-- When threads publish in turn on a fresh hub, the hub's number is how many messages were published; the
-- replay buffer has the newest fifty of them, in the order of publication; and their numbers have no gap
-- and end with the hub's number.
pub publish_all-Consecutive :
    (contents : List Content)
    → ((publish_all contents empty_hub).sequence ≡ length contents)
      × (map content (publish_all contents empty_hub).recent ≡ drop (length contents - 50) contents)
      × Consecutive (length contents - 50) (publish_all contents empty_hub).recent
publish_all-Consecutive contents =
    let log = message_log 0 [] (in_turn contents) in
    let after = publish_all-in_turn contents empty_hub in
    let ran = run_steps-newest (in_turn contents) in
    let recent = ap (λ hub. hub.recent) after ∙ ran.0 in
    let size : length log ≡ length contents =
      sym (length-map log content) ∙ ap length (in_turn-content 0 contents) in
    (
      ap (λ hub. hub.sequence) after ∙ (ran.1 ∙ in_turn-takes_number contents),
      ap (map content) recent
          ∙ (map-drop (length log - 50) log
              ∙ (ap (drop (length log - 50)) (in_turn-content 0 contents)
                  ∙ ap (λ i. drop (i - 50) contents) size)),
      rw recent (
          Consecutive-drop (length log - 50) 0 (length contents - 50) log (omega (arith, size))
            (omega arith) (in_turn-Consecutive 0 contents)),
    )
