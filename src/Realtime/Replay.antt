-- ===== src/Realtime/Replay.antt =====
-- The replay buffer of backend/app/realtime/hub.py against the log of all that was published.
use aegisiq.Realtime.Hub.{
  Hub, Message, bind_loop, unbind_loop, register, connect, disconnect, take_number, append_message,
  broadcast, send_each, new_message, append_bounded, empty_hub,
}
use aegisiq.Realtime.Places.{at, remove_at}
use aegisiq.Models.Json.{Json}
use mathlib.Core.List.{append-nil, append_assoc}
use aegisiq.Prelude.{
  ℕ, zero, suc, ◌+◌, ◌-◌, ◌≤◌, String, ◌≡◌, refl, ap, ◌∙◌, inl, inr, Bool, true, false, none, some,
  List, [], ◌∷◌, ◌++◌, arith, leb, if◌then◌else◌, Bool-cases, Option-cases, length, drop,
  length-append, length-drop, count_if,
}

-- A step of the hub's threads. A thread that publishes takes a number (`self._sequence += 1` is one step),
-- builds its message with the number that it reads then, and appends a message that it has built; these come
-- in any interleaving with the steps of other threads and with calls of the other methods.
pub data Step : Type 0 where
  numbered : Step
  built : String → Json → ℕ → Step
  appended : ℕ → Step
  connected disconnected : ℕ → Step
  broadcasted : (ℕ → Bool) → Step
  bound unbound : Step

-- the hub after the steps, from a hub and the messages that threads have built and not yet appended
unfoldable pub run_steps : List Step → Hub → List Message → Hub
unfolding take_number append_message connect disconnect broadcast bind_loop unbind_loop at remove_at
run_steps [] hub building = hub
run_steps (numbered ∷ cs) hub building = run_steps cs (take_number hub) building
run_steps (built event_type payload now ∷ cs) hub building =
    run_steps cs hub (new_message event_type payload now hub.sequence ∷ building)
run_steps (appended k ∷ cs) hub building = elim (at k building) [
  | none ↦ run_steps cs hub building
  | some m ↦ run_steps cs (append_message m hub) (remove_at k building)
]
run_steps (connected ws ∷ cs) hub building = run_steps cs (connect ws hub).1 building
run_steps (disconnected ws ∷ cs) hub building = run_steps cs (disconnect ws hub) building
run_steps (broadcasted reaches ∷ cs) hub building = run_steps cs (broadcast reaches hub).1 building
run_steps (bound ∷ cs) hub building = run_steps cs (bind_loop hub) building
run_steps (unbound ∷ cs) hub building = run_steps cs (unbind_loop hub) building

-- whether a step takes a number
unfoldable pub takes_number : Step → Bool
takes_number numbered = true
takes_number _ = false

-- The messages that a run appends, in the order in which it does, from how many numbers have been taken and
-- the messages that are built: a message has how many numbers were taken when it was built.
unfoldable pub message_log : ℕ → List Message → List Step → List Message
unfolding at remove_at
message_log n building [] = []
message_log n building (numbered ∷ cs) = message_log (n + 1) building cs
message_log n building (built event_type payload now ∷ cs) =
    message_log n (new_message event_type payload now n ∷ building) cs
message_log n building (appended k ∷ cs) = elim (at k building) [
  | none ↦ message_log n building cs
  | some m ↦ m ∷ message_log n (remove_at k building) cs
]
message_log n building (connected ws ∷ cs) = message_log n building cs
message_log n building (disconnected ws ∷ cs) = message_log n building cs
message_log n building (broadcasted reaches ∷ cs) = message_log n building cs
message_log n building (bound ∷ cs) = message_log n building cs
message_log n building (unbound ∷ cs) = message_log n building cs

abbrev pub newest : ℕ → List Message → List Message
newest k ms = drop (length ms - k) ms

-- The hub has the newest fifty messages of the log.
abbrev Keeps : Hub → List Message → Type 0
Keeps hub log = hub.recent ≡ newest 50 log

drop-snoc :
    (k : ℕ) (xs : List Message) (m : Message)
    → k ≤ length xs
    → drop k (xs ++ m ∷ []) ≡ drop k xs ++ m ∷ []
drop-snoc zero xs m h = refl
drop-snoc (suc k) [] m h = absurd (omega (arith, h))
drop-snoc (suc k) (x ∷ xs) m h = drop-snoc k xs m (omega (arith, h))

drop-one : (k : ℕ) (xs : List Message) → drop 1 (drop k xs) ≡ drop (suc k) xs
drop-one zero xs = refl
drop-one (suc k) [] = refl
drop-one (suc k) (x ∷ xs) = drop-one k xs

append-newest :
    (log : List Message) (m : Message)
    → append_bounded m (newest 50 log) ≡ newest 50 (log ++ m ∷ [])
unfolding append_bounded
append-newest log m = elim (Bool-cases (leb 50 (length log))) [
  | inl full ↦
      let cut = length log - 50 in
      let size : leb 51 (length (drop cut log ++ m ∷ [])) ≡ true =
        ground (arith, full, length-append (drop cut log) (m ∷ []), length-drop cut log) in
      let more : length (log ++ m ∷ []) - 50 ≡ suc cut =
        ground (arith, full, length-append log (m ∷ [])) in
      let snoc = drop-snoc cut log m (ground (arith, full)) in
      rw (size, if◌then◌else◌) (rw (more, ← snoc) (drop-one cut (log ++ m ∷ [])))
  | inr small ↦
      let none_cut : length log - 50 ≡ 0 = ground (arith, small) in
      let none_later : length (log ++ m ∷ []) - 50 ≡ 0 =
        ground (arith, small, length-append log (m ∷ [])) in
      let size : leb 51 (length (log ++ m ∷ [])) ≡ false =
        ground (arith, small, length-append log (m ∷ [])) in
      rw (none_cut, none_later, size, if◌then◌else◌) refl
]

same_recent :
    (reaches : ℕ → Bool) (sockets : List ℕ) (hub : Hub)
    → ((send_each reaches sockets hub).1.recent ≡ hub.recent)
      × ((send_each reaches sockets hub).1.sequence ≡ hub.sequence)
unfolding send_each disconnect
same_recent reaches [] hub = (refl, refl)
same_recent reaches (ws ∷ sockets) hub =
    ground (arith, same_recent reaches sockets hub, same_recent reaches sockets (disconnect ws hub))

connect_recent :
    (ws : ℕ) (hub : Hub)
    → ((connect ws hub).1.recent ≡ hub.recent) × ((connect ws hub).1.sequence ≡ hub.sequence)
unfolding connect register
connect_recent ws hub = ground arith

run_steps-Keeps :
    (cs : List Step) (hub : Hub) (building log : List Message) (n : ℕ)
    → Keeps hub log
    → hub.sequence ≡ n
    → Keeps (run_steps cs hub building) (log ++ message_log n building cs)
      × ((run_steps cs hub building).sequence ≡ n + count_if takes_number cs)
unfolding run_steps message_log take_number append_message broadcast disconnect bind_loop
    unbind_loop count_if takes_number
run_steps-Keeps [] hub building log n k same = (rw (append-nil log) k, omega (arith, same))
run_steps-Keeps (numbered ∷ cs) hub building log n k same =
    let later = run_steps-Keeps cs (take_number hub) building log (n + 1) k (omega (arith, same)) in
    (later.0, omega (arith, later.1))
run_steps-Keeps (built event_type payload now ∷ cs) hub building log n k same =
    let m = new_message event_type payload now in
    let later = run_steps-Keeps cs hub (m hub.sequence ∷ building) log n k same in
    let renumbered = ap (λ i. newest 50 (log ++ message_log n (m i ∷ building) cs)) same in
    (later.0 ∙ renumbered, omega (arith, later.1))
run_steps-Keeps (appended j ∷ cs) hub building log n k same = elim (Option-cases (at j building)) [
  | inl nothing ↦
      let later = run_steps-Keeps cs hub building log n k same in
      rw (nothing, run_steps, message_log) (later.0, omega (arith, later.1))
  | inr (m, found) ↦
      let grown = ap (append_bounded m) k ∙ append-newest log m in
      let rest = remove_at j building in
      let later = run_steps-Keeps cs (append_message m hub) rest (log ++ m ∷ []) n grown same in
      let joined = ap (newest 50) (append_assoc log (m ∷ []) (message_log n rest cs)) in
      rw (found, run_steps, message_log) (later.0 ∙ joined, omega (arith, later.1))
]
run_steps-Keeps (connected ws ∷ cs) hub building log n k same =
    let kept = connect_recent ws hub in
    let later = run_steps-Keeps cs (connect ws hub).1 building log n (kept.0 ∙ k) (kept.1 ∙ same) in
    (later.0, omega (arith, later.1))
run_steps-Keeps (disconnected ws ∷ cs) hub building log n k same =
    let later = run_steps-Keeps cs (disconnect ws hub) building log n k same in
    (later.0, omega (arith, later.1))
run_steps-Keeps (broadcasted reaches ∷ cs) hub building log n k same =
    let kept = same_recent reaches hub.connections hub in
    let later =
      run_steps-Keeps cs (broadcast reaches hub).1 building log n (kept.0 ∙ k) (kept.1 ∙ same) in
    (later.0, omega (arith, later.1))
run_steps-Keeps (bound ∷ cs) hub building log n k same =
    let later = run_steps-Keeps cs (bind_loop hub) building log n k same in
    (later.0, omega (arith, later.1))
run_steps-Keeps (unbound ∷ cs) hub building log n k same =
    let later = run_steps-Keeps cs (unbind_loop hub) building log n k same in
    (later.0, omega (arith, later.1))

-- However the steps of publishing threads interleave, with each other and with the other methods, from a
-- fresh hub on: the replay buffer has exactly the newest fifty of all messages that were appended, in the
-- order in which they were, each numbered with how many numbers had been taken when it was built; and the
-- hub's number is how many were taken.
pub run_steps-newest :
    (cs : List Step)
    → ((run_steps cs empty_hub []).recent ≡ newest 50 (message_log 0 [] cs))
      × ((run_steps cs empty_hub []).sequence ≡ count_if takes_number cs)
run_steps-newest cs =
    let all_kept = run_steps-Keeps cs empty_hub [] [] 0 refl refl in
    (all_kept.0, omega (arith, all_kept.1))
