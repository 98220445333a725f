-- ===== src/Auth/Password/Verify.antt =====
-- A password is accepted by its own hash.
use yaxter.Common.{
  ◌≡◌, ◌≢◌, refl, ap, sym, ◌∙◌, true, false, if◌then◌else◌, none, some, [], ◌∷◌, ◌++◌, ok, length,
  All, arith, contains,
}
use yaxter.Common.Decimal.{Text, decimal}
use yaxter.Events.{codes}
use yaxter.Auth.Base64.{encode, IsByte, encode-plain, decode-encode}
use yaxter.Auth.Password.{
  Argon, panics, argon_time, argon_memory, argon_threads, argon_key_len, split, split_first,
  same_text, expect, digits, scan_params, params, key_of, phc, hash_password, compare_key,
  decode_key, decode_salt, verify_parts, verify_password,
}

abbrev IsPlain : Text → Type 0
IsPlain = All (λ c. c ≢ b'$')

split-plain : (s : Text) → IsPlain s → split b'$' s ≡ s ∷ []
unfolding split split_first
split-plain [] h = refl
split-plain (c ∷ cs) h = ground (arith, split-plain cs h.1)

split-append : (s rest : Text) → IsPlain s → split b'$' (s ++ b'$' ∷ rest) ≡ s ∷ split b'$' rest
unfolding split split_first
split-append [] rest h = refl
split-append (c ∷ cs) rest h = ground (arith, split-append cs rest h.1)

same_text_refl : (s : Text) → same_text s s ≡ true
unfolding same_text
same_text_refl [] = refl
same_text_refl (c ∷ cs) = ground (arith, same_text_refl cs)

pub same_text-eq : (s t : Text) → same_text s t ≡ true → s ≡ t
unfolding same_text
same_text-eq [] [] h = refl
same_text-eq [] (d ∷ ds) h = cc
same_text-eq (c ∷ cs) [] h = cc
same_text-eq (c ∷ cs) (d ∷ ds) h =
    let head : c ≡ d = ground arith in
    let rest = same_text-eq cs ds (ground arith) in rw (head, rest) refl

IsPlain-of : (s : Text) → contains b'$' s ≡ false → IsPlain s
IsPlain-of [] h = tt
IsPlain-of (c ∷ cs) h = ((λ e. ground arith), IsPlain-of cs (ground arith))

scan-params : scan_params params ≡ some (argon_memory, argon_time, argon_threads)
unfolding scan_params expect digits decimal
scan-params = refl

params-IsPlain : IsPlain params
unfolding decimal
params-IsPlain = IsPlain-of params refl

module _ (a : Argon) (salt key : Text) (salt_bytes : All IsByte salt)
    (key_bytes : All IsByte key) where
  split-phc :
      split b'$' (phc a salt key)
      ≡ [] ∷ codes "argon2id" ∷ codes "v=19" ∷ params ∷ encode salt ∷ encode key ∷ []
  unfolding phc
  split-phc =
      split-append [] _ tt
      ∙ ap (λ r. [] ∷ r)
          (split-append (codes "argon2id") _ (IsPlain-of (codes "argon2id") refl)
            ∙ ap (λ r. codes "argon2id" ∷ r)
                (split-append (codes "v=19") _ (IsPlain-of (codes "v=19") refl)
                  ∙ ap (λ r. codes "v=19" ∷ r)
                      (split-append params _ params-IsPlain
                        ∙ ap (λ r. params ∷ r)
                            (split-append (encode salt) _ (encode-plain salt salt_bytes)
                              ∙ ap (λ r. encode salt ∷ r)
                                  (split-plain (encode key) (encode-plain key key_bytes))))))

  verify-phc :
      (password : Text)
      → verify_password a password (phc a salt key) ≡ (
          if panics argon_time argon_threads (length key)
          then none
          else some (
              ok (
                same_text
                  (a.id_key password salt argon_time argon_memory argon_threads (length key))
                  key)))
  unfolding verify_password verify_parts same_text scan_params
  verify-phc password =
      ap (verify_parts a password) split-phc
      ∙ ap (λ ps. decode_salt a password ps (encode salt) (encode key)) scan-params
      ∙ ap (λ s. decode_key a password (argon_memory, argon_time, argon_threads) s (encode key))
          (decode-encode salt salt_bytes)
      ∙ ap (λ k. compare_key a password (argon_memory, argon_time, argon_threads) salt k)
          (decode-encode key key_bytes)

-- What `HashPassword` writes with any salt of bytes, `VerifyPassword` reads without an error or a panic, and accepts
-- exactly the passwords for which Argon2, with that salt and the parameters of the hash, gives the
-- same key; the password itself is one of them.
pub verify-hash :
    (a : Argon) (password tried salt : Text) {hash : Text}
    → All IsByte salt
    → hash_password a password (some salt) ≡ ok hash
    → (verify_password a tried hash
        ≡ some (ok (same_text (key_of a tried salt) (key_of a password salt))))
      × (verify_password a password hash ≡ some (ok true))
unfolding hash_password
verify-hash a password tried salt {hash} bytes h = (
  accepts tried,
  accepts password ∙ ap (λ b. some (ok b)) (same_text_refl (key_of a password salt)),
)
  where
    key : Text
    key = key_of a password salt

    accepts : (p : Text) → verify_password a p hash ≡ some (ok (same_text (key_of a p salt) key))
    accepts p =
        let made : phc a salt key ≡ hash = ground arith in
        let len =
          a.length-id_key password salt argon_time argon_memory argon_threads argon_key_len in
        ap (verify_password a p) (sym made)
        ∙ verify-phc a salt key bytes
            (a.id_key-bytes password salt argon_time argon_memory argon_threads argon_key_len) p
        ∙ ap
            (λ n.
              if panics argon_time argon_threads n
              then none
              else some
                  (ok (same_text (a.id_key p salt argon_time argon_memory argon_threads n) key)))
            len
