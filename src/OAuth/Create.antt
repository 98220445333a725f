-- ===== src/OAuth/Create.antt =====
-- internal/auth/oauth/flow.go: `createUser`, with its search for a free username.
use yaxter.Common.{
  ℕ, zero, suc, ◌+◌, Bool, true, false, not, ◌&&◌, ◌||◌, Option, none, some, List, [], ◌∷◌, ◌++◌,
  map, Result, ok, err, ◌>>=◌, ◌>>◌, guard, ltb, leb, ◌==◌, if◌then◌else◌, any, length, take,
}
use yaxter.Common.Decimal.{Text, decimal}
use yaxter.OAuth.Accounts.{Identity, Account, Db, Error, unavailable, Env, insert_identity}

-- `[^A-Za-z0-9_]` is what the sanitizer replaces; a login is the list of its code points.
abbrev pub is_word : ℕ → Bool
is_word c =
    leb b'A' c && leb c b'Z' || leb b'a' c && leb c b'z' || leb b'0' c && leb c b'9' || c == b'_'

unfoldable pub sanitize : Text → Text
sanitize s = map (λ c. if is_word c then c else b'_') s

-- `if len(base) < 3` and `if len(base) > 24`
unfoldable pub clip : Text → Text
clip clean =
    let base = if ltb (length clean) 3 then b'u' ∷ b's' ∷ b'e' ∷ b'r' ∷ [] else clean in
    if ltb 24 (length base) then take 24 base else base

-- `base`
unfoldable pub base_of : Text → Text
base_of login = clip (sanitize login)

-- `fmt.Sprintf("%s_%d", base, i)`
unfoldable pub candidate : Text → ℕ → Text
candidate base i = base ++ b'_' ∷ decimal i

-- CITEXT compares the lower-case texts; usernames are ASCII.
abbrev pub lower : ℕ → ℕ
lower c = if leb b'A' c && leb c b'Z' then c + 32 else c

unfoldable pub text_eq : Text → Text → Bool
text_eq [] [] = true
text_eq [] (d ∷ ds) = false
text_eq (c ∷ cs) [] = false
text_eq (c ∷ cs) (d ∷ ds) = lower c == lower d && text_eq cs ds

-- `SELECT EXISTS (SELECT 1 FROM users WHERE username = $1)`
unfoldable pub is_taken : Text → List Account → Bool
is_taken name us = any (λ u. text_eq u.username name) us

-- The loop over the candidates, on fuel; `none` says that the fuel ran out, and `err` that a
-- statement failed. Round `i` asks for `username`.
unfoldable pub free_name :
    ℕ → (ℕ → Bool) → Text → ℕ → Text → List Account → Option (Result Error Text)
free_name zero fails base i username us = none
free_name (suc f) fails base i username us =
    let rest = free_name f fails base (suc i) (candidate base i) us in
    if fails i
    then some (err unavailable)
    else if is_taken username us
    then rest
    else some (ok username)

-- The INSERT into `users` with its keys.
abbrev pub insert_user : Bool → Account → Db → Result Error Db
insert_user fails a db =
    if fails
      || any (λ u. u.id == a.id || u.email == a.email || text_eq u.username a.username) db.users
    then err unavailable
    else ok (record db { users = a ∷ db.users })

-- The statements of `createUser` after the search.
unfoldable pub create_named : Env → ℕ → Identity → Result Error Text → Db → Result Error (ℕ × Db)
create_named e p ident (err x) db = err x
create_named e p ident (ok name) db = do
  db₁ ←
      insert_user (e.fails 21)
        (record { id = e.fresh 2; username = name; email = ident.email; has_password = false }) db
  db₂ ← insert_identity e 22 (e.fresh 2) p ident db₁
  guard (not (e.fails 24)) unavailable
  ok (e.fresh 2, db₂)

unfoldable pub create_searched :
    Env → ℕ → Identity → Option (Result Error Text) → Db → Option (Result Error (ℕ × Db))
create_searched e p ident none db = none
create_searched e p ident (some name) db = some (create_named e p ident name db)

-- `createUser`; `lookups` says which of the searches fail.
unfoldable pub create_user :
    ℕ → Env → (ℕ → Bool) → ℕ → Identity → Db → Option (Result Error (ℕ × Db))
unfolding create_searched create_named
create_user fuel e lookups p ident db =
    if e.fails 20
    then some (err unavailable)
    else create_searched e p ident
        (free_name fuel lookups (base_of ident.login) 1 (base_of ident.login) db.users) db
