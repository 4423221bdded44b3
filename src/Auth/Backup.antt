-- ===== src/Auth/Backup.antt =====
-- Backup codes of backend/app/security/mfa_service.py are good for one use.
use aegisiq.Auth.Accounts.{Policy, Crypto, Accounts, get_mfa}
use aegisiq.Auth.Mfa.{
  Method, backup, backup_hash, is_enforced, remove_first, verify_row, verify_code,
}
use aegisiq.Auth.Rows.{get_mfa-put_mfa}
use aegisiq.Models.User.{User, UserMfa}
use aegisiq.Prelude.{
  ℕ, suc, ◌+◌, ◌≤◌, String, ◌≡◌, refl, ap, inl, inr, Bool, true, false, ◌&&◌, none, some, List, [],
  ◌∷◌, arith, if◌then◌else◌, str_eq, str_eq_iff, str_eq_refl, Bool-cases, Option-cases, any,
  count_if,
}

-- How many of the stored codes have the hash.
abbrev pub stored : String → List String → ℕ
stored h hashes = count_if (str_eq h) hashes

-- how many codes of the user's enrolment have the hash
pub remaining : String → User → Accounts → ℕ
remaining h user db = elim (get_mfa user db) [ none ↦ 0 | some row ↦ stored h row.backup_hashes ]

stored-remove_first :
    (h : String) (hashes : List String)
    → any (str_eq h) hashes ≡ true
    → stored h hashes ≡ suc (stored h (remove_first h hashes))
unfolding any count_if remove_first
stored-remove_first h [] found = absurd (ground (arith, found))
stored-remove_first h (x ∷ xs) found = elim (Bool-cases (str_eq h x)) [
  | inl same ↦ rw same (ground arith)
  | inr other ↦
      let rest = stored-remove_first h xs (ground (arith, found, other)) in
      rw (other, if◌then◌else◌) (ground (arith, rest, other))
]

others_stay :
    (h k : String) (hashes : List String)
    → str_eq h k ≡ false
    → stored k (remove_first h hashes) ≡ stored k hashes
unfolding count_if remove_first
others_stay h k [] apart = refl
others_stay h k (x ∷ xs) apart = elim (Bool-cases (str_eq h x)) [
  | inl same ↦
      let not_k : str_eq k x ≡ false =
        ground (arith, str_eq_iff h x, str_eq_iff k x, str_eq_refl h, apart, same) in
      rw (same, if◌then◌else◌, not_k) (omega arith)
  | inr other ↦
      rw (other, if◌then◌else◌)
        (ap (λ n. (if str_eq k x then 1 else 0) + n) (others_stay h k xs apart))
]

module _ (policy : Policy) (crypto : Crypto) (user : User) where
  -- How many of a run of submissions, each an instant and a code, are accepted as the backup code
  -- with the hash.
  pub is_backup : Method → Bool
  is_backup backup = true
  is_backup _ = false

  pub uses : String → List (ℕ × String) → Accounts → ℕ
  uses h [] db = 0
  uses h ((now, code) ∷ submissions) db =
      (if is_backup (verify_code policy crypto now user code db).0
          && str_eq h (backup_hash crypto code)
        then 1
        else 0)
      + uses h submissions (verify_code policy crypto now user code db).1

  -- what one submission spends of a row
  row_use :
      (h : String) (now : ℕ) (code : String) (row : UserMfa)
      → (if is_backup (verify_row policy crypto now code row).0
              && str_eq h (backup_hash crypto code)
            then 1
            else 0)
          + stored h (verify_row policy crypto now code row).1.backup_hashes
        ≡ stored h row.backup_hashes
  unfolding verify_row is_backup
  row_use h now code row =
      let given = backup_hash crypto code in
      let spent = stored-remove_first given row.backup_hashes in
      elim (Bool-cases (str_eq h given)) [
        | inl same ↦
            let is : h ≡ given = (str_eq_iff h given).0 same in
            rw is (ground (arith, spent, str_eq_refl given))
        | inr apart ↦
            let different : str_eq given h ≡ false =
              ground (arith, str_eq_iff h given, str_eq_iff given h, str_eq_refl h, apart) in
            ground (arith, others_stay given h row.backup_hashes different, apart)
      ]

  verify_row-user_id :
      (now : ℕ) (code : String) (row : UserMfa)
      → (verify_row policy crypto now code row).1.user_id ≡ row.user_id
  unfolding verify_row
  verify_row-user_id now code row = ground arith

  -- what one submission spends
  one_use :
      (h : String) (now : ℕ) (code : String) (db : Accounts)
      → (if is_backup (verify_code policy crypto now user code db).0
              && str_eq h (backup_hash crypto code)
            then 1
            else 0)
          + remaining h user (verify_code policy crypto now user code db).1
        ≡ remaining h user db
  unfolding remaining verify_code is_backup
  one_use h now code db = elim (Option-cases (get_mfa user db)) [
    | inl absent ↦ ground (arith, absent)
    | inr (row, found) ↦ elim (Bool-cases (is_enforced row)) [
      | inr idle ↦ ground (arith, found, idle)
      | inl live ↦
          let after =
            get_mfa-put_mfa user db row (verify_row policy crypto now code row).1 found
              (verify_row-user_id now code row) in
          rw (found, verify_code)
            (rw (live, if◌then◌else◌) (rw (found, after, remaining) (row_use h now code row)))
    ]
  ]

  -- Over any run of submissions, a backup code is accepted at most as often as its hash is
  -- stored.
  pub uses-le :
      (h : String) (submissions : List (ℕ × String)) (db : Accounts)
      → uses h submissions db ≤ remaining h user db
  unfolding uses
  uses-le h [] db = omega arith
  uses-le h ((now, code) ∷ submissions) db =
      let rest = uses-le h submissions (verify_code policy crypto now user code db).1 in
      omega (arith, rest, one_use h now code db)
