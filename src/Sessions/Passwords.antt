-- ===== src/Sessions/Passwords.antt =====
-- Passwords: `hashPassword` and `verifyPassword` of apps/api/src/auth/auth.service.ts. scrypt and
-- hexadecimal are parameters.
use fuel_chain.Base.{
  ℕ, ◌≡◌, refl, ap, ◌∙◌, ◌↔◌, String, Bool, true, false, ◌&&◌, Option, some, List, [], ◌∷◌, ◌==◌,
  length, arith,
}
use fuel_chain.Base.Split.{
  part, joined, part_of, second_part, Unsplit, part-joined, part_self, after-joined,
}
use fuel_chain.Custody.Accept.{given}

pub record Crypto : Type 0 where
  pub scrypt : String → String → List ℕ
  pub hex : List ℕ → String
  pub unhex : String → List ℕ

-- `timingSafeEqual`, of buffers of one length
abbrev pub same_bytes : List ℕ → List ℕ → Bool
same_bytes [] [] = true
same_bytes (x ∷ xs) (y ∷ ys) = x == y && same_bytes xs ys
same_bytes _ _ = false

-- `${salt}:${hash}`
unfoldable pub hash_password : Crypto → String → String → String
hash_password k password salt = joined ":" salt (k.hex (k.scrypt password salt))

abbrev pub verify_parts : Crypto → String → Option String → Option String → Bool
verify_parts k password (some salt) (some hash) =
    let next = k.scrypt password salt in
    let prev = k.unhex hash in length prev == length next && same_bytes prev next
verify_parts k password _ _ = false

unfoldable pub verify_password : Crypto → String → String → Bool
verify_password k password stored =
    verify_parts k password (given (some (part ":" stored))) (given (second_part ":" stored))

same_bytes_iff : (xs ys : List ℕ) → (same_bytes xs ys ≡ true) ↔ (xs ≡ ys)
same_bytes_iff [] [] = ground arith
same_bytes_iff [] (y ∷ ys) = ground arith
same_bytes_iff (x ∷ xs) [] = ground arith
same_bytes_iff (x ∷ xs) (y ∷ ys) = ground (arith, same_bytes_iff xs ys)

length-same_bytes :
    (xs ys : List ℕ) → (length xs == length ys && same_bytes xs ys) ≡ same_bytes xs ys
length-same_bytes [] [] = refl
length-same_bytes [] (y ∷ ys) = ground arith
length-same_bytes (x ∷ xs) [] = ground arith
length-same_bytes (x ∷ xs) (y ∷ ys) = ground (arith, length-same_bytes xs ys)

-- A password is accepted against the stored text of another exactly when scrypt makes the same bytes of
-- both under its salt: where hexadecimal reads back what it wrote, and neither the salt nor the
-- hexadecimal text is empty or holds a colon.
pub hash_password-verify_password :
    (k : Crypto) (password other salt : String)
    → let bytes = k.scrypt password salt in
      k.unhex (k.hex bytes) ≡ bytes
      → given (some salt) ≡ some salt
      → Unsplit ":" salt
      → given (some (k.hex bytes)) ≡ some (k.hex bytes)
      → Unsplit ":" (k.hex bytes)
      → (verify_password k other (hash_password k password salt) ≡ true)
        ↔ (k.scrypt other salt ≡ bytes)
unfolding hash_password verify_password
hash_password-verify_password k password other salt reads full_salt plain_salt full plain =
    let bytes = k.scrypt password salt in
    let next = k.scrypt other salt in
    let stored = joined ":" salt (k.hex bytes) in
    let second : second_part ":" stored ≡ some (k.hex bytes) =
      ap (part_of ":") (after-joined ":" salt (k.hex bytes) plain_salt)
      ∙ ap some (part_self ":" (k.hex bytes) plain) in
    let verified : verify_parts k other (given (some (part ":" stored)))
          (given (second_part ":" stored))
        ≡ same_bytes bytes next =
      ap (λ b. verify_parts k other (given (some b)) (given (second_part ":" stored)))
        (part-joined ":" salt (k.hex bytes) plain_salt)
      ∙ ap (λ o. verify_parts k other (given (some salt)) (given o)) second
      ∙ rw (full_salt, full, reads) (length-same_bytes bytes next) in
    rw verified (ground (arith, same_bytes_iff bytes next))
