-- ===== src/Agent/Signature.antt =====
-- `verify_signature` of agent/kill_switch_agent_v2.py. The digest of a message under a secret is a parameter,
-- and so is `int`: none for a text that is no number, or a negative one, which the check of the clock refuses.
-- A body is a text, instants are seconds.
use Prim.Native.Char.{code}
use aegisiq.Prelude.{
  ℕ, ◌+◌, String, Bool, true, false, not, ◌&&◌, ◌||◌, Option, none, some, List, [], ◌∷◌, ltb, ◌==◌,
  if◌then◌else◌, str_eq, or_else, concat, contains, before, split, length, any,
}

-- `kv.split("=", 1)[1]`
unfoldable pub after_equals : String → String
after_equals String.[] = ""
after_equals (String.◌∷◌ c s) = let rest = after_equals s in if code c == 61 then s else rest

-- `parts.get(key)`: the last pair with the key counts
unfoldable pub value_of : String → List String → Option String
unfolding after_equals
value_of key [] = none
value_of key (kv ∷ kvs) = elim (value_of key kvs) [
  | some v ↦ some v
  | none ↦ if contains "=" kv && str_eq (before "=" kv) key then some (after_equals kv) else none
]

-- `MAX_CLOCK_SKEW_SECONDS`, and the size that the set of nonces may reach
abbrev pub max_clock_skew : ℕ
max_clock_skew = 60

abbrev pub max_nonces : ℕ
max_nonces = 10_000

-- `seen_nonces.add(n)` for a new nonce, with the bound on the set
unfoldable pub remember : String → List String → List String
remember n seen = if ltb max_nonces (length (n ∷ seen)) then n ∷ [] else n ∷ seen

module _ (hexdigest : String → String → String) (int : String → Option ℕ) where
  -- the checks of the clock, the nonces and the digest
  unfoldable pub passes : ℕ → String → String → String → String → String → List String → Bool
  passes now secret body t n sig seen = elim (int t) [
    | none ↦ false
    | some ts ↦
        not (ltb (now + max_clock_skew) ts || ltb (ts + max_clock_skew) now)
        && (not (any (str_eq n) seen)
            && str_eq (hexdigest secret (concat t (concat "." (concat n (concat "." body))))) sig)
  ]

  unfoldable pub judge :
      ℕ
      → String
      → String
      → Option String
      → Option String
      → Option String
      → List String
      → Bool × List String
  unfolding passes remember
  judge now secret body none n sig seen = (false, seen)
  judge now secret body (some t) none sig seen = (false, seen)
  judge now secret body (some t) (some n) none seen = (false, seen)
  judge now secret body (some t) (some n) (some sig) seen =
      if passes now secret body t n sig seen then (true, remember n seen) else (false, seen)

  -- `verify_signature`: the answer, and the nonces that were seen
  unfoldable pub verify_signature : ℕ → String → String → String → List String → Bool × List String
  unfolding value_of judge
  verify_signature now secret body header seen =
      let parts = split "," header in
      judge now secret body (or_else (value_of "t" parts) none) (or_else (value_of "n" parts) none)
        (or_else (value_of "v1" parts) none) seen
