-- ===== src/Auth/Rows.antt =====
-- Looking a user up after a row of the table has been replaced.
use aegisiq.Auth.Accounts.{Accounts, find_user, put_user, put_row, get_mfa, put_mfa, put_mfa_row}
use aegisiq.Models.User.{User, UserMfa}
use aegisiq.Prelude.{
  ℕ, String, ◌≡◌, refl, ap, ◌∙◌, inl, inr, Bool, true, some, List, [], ◌∷◌, map, arith, ◌==◌,
  str_eq, Bool-cases, ==_iff, is_some, first, first_sound,
}

first-put_row :
    (p : User → Bool) (rows : List User) (user new : User)
    → first p rows ≡ some user
    → new.id ≡ user.id
    → p new ≡ true
    → first p (map (put_row new) rows) ≡ some new
unfolding first put_row
first-put_row p [] user new found same hits = absurd (ground (arith, found))
first-put_row p (u ∷ rows) user new found same hits = elim (Bool-cases (u.id == new.id)) [
  | inl its ↦ ground (arith, its, hits)
  | inr other ↦ elim (Bool-cases (p u)) [
    | inl hit ↦
        let is : u ≡ user = ground (arith, found, hit) in
        absurd (ground (arith, other, same, ap (λ (v : User). v.id) is))
    | inr miss ↦
        let rest = first-put_row p rows user new (ground (arith, found, miss)) same hits in
        ground (arith, rest, other, miss)
  ]
]

-- The row that `find_user` found, replaced by one of the same id and name, is what it finds next.
pub find_user-put_user :
    (name : String) (db : Accounts) (user new : User)
    → find_user name db ≡ some user
    → new.id ≡ user.id
    → new.username ≡ user.username
    → find_user name (put_user new db) ≡ some new
unfolding find_user put_user
find_user-put_user name db user new found same_id same_name =
    first-put_row (λ u. str_eq u.username name) db.users user new found same_id
      (rw same_name (first_sound (λ (u : User). str_eq u.username name) db.users user found))

first-put_mfa_row :
    (id : ℕ) (rows : List UserMfa) (new : UserMfa)
    → new.user_id ≡ id
    → is_some (first (λ (m : UserMfa). m.user_id == id) rows) ≡ true
    → first (λ (m : UserMfa). m.user_id == id) (map (put_mfa_row new) rows) ≡ some new
unfolding first put_mfa_row is_some
first-put_mfa_row id [] new same found = absurd (ground (arith, found))
first-put_mfa_row id (m ∷ rows) new same found = elim (Bool-cases (m.user_id == id)) [
  | inl its ↦ ground (arith, its, same)
  | inr other ↦
      let rest = first-put_mfa_row id rows new same (ground (arith, found, other)) in
      ground (arith, rest, other, same)
]

-- The enrolment that `get_mfa` found, replaced, is what it finds next.
pub get_mfa-put_mfa :
    (user : User) (db : Accounts) (row new : UserMfa)
    → get_mfa user db ≡ some row
    → new.user_id ≡ row.user_id
    → get_mfa user (put_mfa new db) ≡ some new
unfolding get_mfa put_mfa is_some
get_mfa-put_mfa user db row new found same =
    let its =
      (==_iff row.user_id user.id).0
        (first_sound (λ (m : UserMfa). m.user_id == user.id) db.mfas row found) in
    first-put_mfa_row user.id db.mfas new (same ∙ its) (rw found refl)
