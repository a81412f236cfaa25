-- ===== src/Custody/Payload.antt =====
-- What a QR baton carries, and the check of its signature (custody-qr.service.ts).
-- SHA-256 over the canonical JSON, the HMAC under the server's secret and the text that JavaScript
-- makes of a value that is no text, or the number of one that is no number, are parameters: they are not code of the repository.
use fuel_chain.Base.{
  ◌++◌, sym, ap, ◌∙◌, ℕ, String, ◌≡◌, refl, Bool, true, false, not, ◌||◌, Option, none, some, List,
  [], ◌∷◌, str_eq, eq_iff, arith, if◌then◌else◌, Result, ok, err, refuse_if, ◌>>◌,
}
use package.text.Mathlib.TextPositions.{eq_refl}
use fuel_chain.Base.Int.{ℤ, pos, ◌+ℤ◌}
use fuel_chain.Schema.{Exception, secret_missing, bad_signature}

-- A sample of the route in its compact form.
pub record Sample : Type 0 where
  pub index : ℕ
  pub kind : String
  pub volume_liters : ℤ
  pub density : Option ℤ
  pub temperature : Option ℤ
  pub water : Bool
  pub captured_at_sec : ℕ
  pub client_event_id : Option String

-- A value of a JSON object. A number is given in the unit of its key: millilitres for `vol`, seconds
-- for `exp` and `ts`.
pub data Value : Type 0 where
  text : String → Value
  num : ℤ → Value
  flag : Bool → Value
  null : Value
  samples : List Sample → Value

abbrev pub Payload : Type 0
Payload = List (String × Value)

-- `embedded[key]`, with `none` for `undefined`
abbrev pub field : String → Payload → Option Value
field k [] = none
field k ((j, v) ∷ p) = if str_eq j k then some v else field k p

pub record Config : Type 0 where
  pub has_secret : Bool
  pub hash_payload : Payload → String
  pub hmac : String → String
  pub string_of : Value → String
  pub number_of : Value → ℤ
  pub key_text : ℕ → String
  -- how what a reception awaits after its transaction ends, by the baton and the time
  pub follow_up : String → ℕ → Result Exception (Unit {0})

-- `secret()`: the server's secret is set, or the call fails.
unfoldable pub secret : Config → Result Exception (Unit {0})
secret c = refuse_if (not c.has_secret) secret_missing

unfoldable pub core_from_embedded : Payload → Payload
core_from_embedded [] = []
core_from_embedded ((k, v) ∷ p) =
    let rest = core_from_embedded p in if str_eq k "h" || str_eq k "s" then rest else (k, v) ∷ rest

-- `String(value ?? '')`
abbrev pub string_or_empty : Config → Option Value → String
string_or_empty c none = ""
string_or_empty c (some null) = ""
string_or_empty c (some (text s)) = s
string_or_empty c (some v) = c.string_of v

-- `h !== expected || s !== this.sign(h)`: the secret is read only where `h` is as expected.
unfoldable verify : Config → String → String → String → Result Exception (Unit {0})
unfolding secret
verify c h s expected =
    if not (str_eq h expected)
    then err bad_signature
    else (secret c >> refuse_if (not (str_eq s (c.hmac h))) bad_signature)

unfoldable pub assert_embedded_signature : Config → Payload → Result Exception (Unit {0})
unfolding verify core_from_embedded
assert_embedded_signature c embedded =
    verify c (string_or_empty c (field "h" embedded)) (string_or_empty c (field "s" embedded))
      (c.hash_payload (core_from_embedded embedded))

-- 72 hours
abbrev pub baton_ttl_sec : ℕ
baton_ttl_sec = 259200

abbrev issue_expiry : Option Value → Option ℤ
issue_expiry (some (num t)) = some (t +ℤ pos baton_ttl_sec)
issue_expiry _ = none

abbrev expiry : Option Value → Option Value → Option ℤ
expiry (some (num e)) ts = some e
expiry _ ts = issue_expiry ts

unfoldable pub expires_unix : Payload → Option ℤ
expires_unix embedded = expiry (field "exp" embedded) (field "ts" embedded)

-- `{ ...core, h, s }` of a core that has neither key
unfoldable pub seal : Config → Payload → Payload
seal c core =
    core ++ ("h", text (c.hash_payload core)) ∷ ("s", text (c.hmac (c.hash_payload core))) ∷ []

-- No key of the payload is `h` or `s`.
abbrev pub IsCore : Payload → Type 0
IsCore [] = Unit
IsCore ((k, v) ∷ p) = (str_eq k "h" ≡ false) × (str_eq k "s" ≡ false) × IsCore p

field-seal :
    (p q : Payload)
    → IsCore p
    → (field "h" (p ++ q) ≡ field "h" q) × (field "s" (p ++ q) ≡ field "s" q)
field-seal [] q h = (refl, refl)
field-seal ((k, v) ∷ p) q h = ground (arith, field-seal p q h.2)

core-seal :
    (p : Payload) (x y : Value) → IsCore p → core_from_embedded (p ++ ("h", x) ∷ ("s", y) ∷ []) ≡ p
unfolding core_from_embedded
core-seal [] x y h = refl
core-seal ((k, v) ∷ p) x y h = ground (arith, core-seal p x y h.2)

assert_lem :
    (c : Config) (p : Payload)
    → assert_embedded_signature c p
      ≡ verify c
          (string_or_empty c (field "h" p))
          (string_or_empty c (field "s" p))
          (c.hash_payload (core_from_embedded p))
unfolding assert_embedded_signature
assert_lem c p = refl

verify_refl : (c : Config) (h : String) → c.has_secret ≡ true → verify c h (c.hmac h) h ≡ ok tt
unfolding verify
verify_refl c h secret_set = rw (eq_refl, secret_set, eq_refl)

verify-ok :
    (c : Config) (h s expected : String)
    → verify c h s expected ≡ ok tt
    → (h ≡ expected) × (s ≡ c.hmac expected)
unfolding verify
verify-ok c h s expected e = ground (arith, eq_iff h expected, eq_iff s (c.hmac h))

verify_sealed :
    (c : Config) (core p : Payload)
    → c.has_secret ≡ true
    → string_or_empty c (field "h" p) ≡ c.hash_payload core
    → string_or_empty c (field "s" p) ≡ c.hmac (c.hash_payload core)
    → core_from_embedded p ≡ core
    → assert_embedded_signature c p ≡ ok tt
verify_sealed c core p secret_set eh es ec =
    assert_lem c p ∙ rw (eh, es, ec) (verify_refl c (c.hash_payload core) secret_set)

-- A payload that the server sealed passes the check of its signature.
pub assert_embedded_signature-seal :
    (c : Config) (core : Payload)
    → c.has_secret ≡ true
    → IsCore core
    → assert_embedded_signature c (seal c core) ≡ ok tt
unfolding seal
assert_embedded_signature-seal c core secret_set h =
    let h_field = text (c.hash_payload core) in
    let s_field = text (c.hmac (c.hash_payload core)) in
    let fields = field-seal core (("h", h_field) ∷ ("s", s_field) ∷ []) h in
    verify_sealed c core (core ++ ("h", h_field) ∷ ("s", s_field) ∷ []) secret_set
      (ap (string_or_empty c) fields.0) (ap (string_or_empty c) fields.1)
      (core-seal core h_field s_field h)

-- A payload passes the check only where its `h` is the digest of all its other fields and its `s`
-- is the server's HMAC of that digest: nobody can change a field and keep both.
pub assert_embedded_signature-ok :
    (c : Config) (p : Payload)
    → assert_embedded_signature c p ≡ ok tt
    → (string_or_empty c (field "h" p) ≡ c.hash_payload (core_from_embedded p))
      × (string_or_empty c (field "s" p) ≡ c.hmac (c.hash_payload (core_from_embedded p)))
assert_embedded_signature-ok c p h =
    verify-ok c (string_or_empty c (field "h" p)) (string_or_empty c (field "s" p))
      (c.hash_payload (core_from_embedded p)) (sym (assert_lem c p) ∙ h)
