-- ===== src/Auth/Password.antt =====
-- backend/app/security/password_policy.py. Letters and digits are ASCII ones, so a symbol is any
-- other character.
use Prim.Native.String.{String}
use aegisiq.Prelude.{
  ℕ, ◌+◌, Bool, true, false, not, ◌&&◌, ◌||◌, List, [], ◌∷◌, ◌++◌, map, ltb, leb, ◌==◌, str_eq,
  codes, lower, contains, length, any, count_if,
}

-- The messages of the policy.
pub data PolicyError : Type 0 where
  too_short too_few_categories well_known is_username shares_username one_character : PolicyError

abbrev pub well_known_passwords : List String
well_known_passwords =
    "password" ∷ "password1" ∷ "password123" ∷ "passw0rd" ∷ "12345678" ∷ "123456789" ∷ "1234567890"
    ∷ "qwerty12345" ∷ "admin" ∷ "admin1" ∷ "admin123" ∷ "administrator" ∷ "letmein" ∷ "changeme"
    ∷ "changeme123!" ∷ "ChangeMe123!" ∷ "welcome1" ∷ "welcome123" ∷ "welcome2024" ∷ "welcome2025"
    ∷ "welcome2026" ∷ "iloveyou" ∷ "root" ∷ "toor" ∷ "kali" ∷ "vboxuser" ∷ []

abbrev pub is_lower : ℕ → Bool
is_lower n = leb 97 n && leb n 122

abbrev pub is_upper : ℕ → Bool
is_upper n = leb 65 n && leb n 90

abbrev pub is_digit : ℕ → Bool
is_digit n = leb 48 n && leb n 57

abbrev pub is_symbol : ℕ → Bool
is_symbol n = not (is_lower n || (is_upper n || is_digit n))

abbrev pub one_if : Bool → ℕ
one_if true = 1
one_if false = 0

-- `_categories`
unfoldable pub categories : String → ℕ
categories password =
    let cs = codes password in
    one_if (any is_lower cs)
    + (one_if (any is_upper cs) + (one_if (any is_digit cs) + one_if (any is_symbol cs)))

-- whether the text has three characters in a row of the username, both lower-cased
unfoldable pub has_three_of : String → String → Bool
has_three_of p (String.◌∷◌ a (String.◌∷◌ b (String.◌∷◌ c u))) =
    contains (String.◌∷◌ a (String.◌∷◌ b (String.◌∷◌ c String.[]))) p
    || has_three_of p (String.◌∷◌ b (String.◌∷◌ c u))
has_three_of p _ = false

-- `_shares_three_chars`
unfoldable pub shares_three_chars : String → String → Bool
shares_three_chars password username = has_three_of (lower password) (lower username)

-- `re.match(r"^(.)\1{7,}$", password)`: eight or more times one character that is no line break,
-- and one line break may follow
unfoldable pub repeats : ℕ → List ℕ → Bool
repeats c [] = true
repeats c (d ∷ []) = d == c || d == 10
repeats c (d ∷ e ∷ cs) = d == c && repeats c (e ∷ cs)

unfoldable pub one_character_repeated : List ℕ → Bool
one_character_repeated [] = false
one_character_repeated (c ∷ cs) =
    not (c == 10) && (leb 7 (count_if (λ d. d == c) cs) && repeats c cs)

unfoldable pub error_if : Bool → PolicyError → List PolicyError
error_if true e = e ∷ []
error_if false e = []

-- the errors of `validate`; the password is accepted if there are none
unfoldable pub validate : String → String → List PolicyError
unfolding error_if
validate password username =
    error_if (ltb (length (codes password)) 12) too_short
    ++ (error_if (ltb (categories password) 3) too_few_categories
        ++ (error_if (any (str_eq (lower password)) (map lower well_known_passwords)) well_known
            ++ (error_if (not (str_eq username "") && str_eq (lower password) (lower username))
                  is_username
                ++ (error_if (not (str_eq username "") && shares_three_chars password username)
                      shares_username
                    ++ error_if (one_character_repeated (codes password)) one_character))))
