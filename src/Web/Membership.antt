-- ===== src/Web/Membership.antt =====
-- The membership of a wallet that opens the report: the state of `useUnlockMembership` in
-- apps/web/src/lib/use-unlock-membership.ts, and `unlockConfigured` of apps/web/src/lib/unlock.ts. What
-- runs between two waits is one step, so that the answer to a check comes after any other event. What
-- the wallet names and the chain answers are events; error texts and letter case are parameters.
use fuel_chain.Base.{
  subst, Bool-cases, eq_iff, ◌≡◌, ◌∙◌, ◌⊎◌, inl, inr, refl, sym, String, Bool, true, false, Option,
  none, some, List, [], ◌∷◌, ◌++◌, str_eq, ◌&&◌, not, is_some, if◌then◌else◌, find_first,
  remove_first, one_value, arith,
}
use fuel_chain.Base.Text.{trim}
use fuel_chain.Custody.Accept.{given, given-some}
use fuel_chain.Anchors.Setup.{is_prefixed_hex}

-- The address of the lock has the form of one; a missing variable counts as empty.
unfoldable pub unlock_configured : Option String → Bool
unlock_configured none = false
unlock_configured (some address) = is_prefixed_hex 40 (trim address)

-- A check that is under way, of a wallet; a connection waits for its own.
pub record Check : Type 0 where
  pub wallet : String
  pub connects : Bool

pub record Membership : Type 0 where
  pub connecting : Bool
  pub checking : Bool
  pub address : Option String
  pub has_key : Bool
  pub error : Option String
  pub pending : List Check

abbrev pub initial : Membership
initial = record {
  connecting = false;
  checking = false;
  address = none;
  has_key = false;
  error = none;
  pending = [];
}

-- The part of `checkKey` before it waits.
abbrev pub check_key : Bool → Check → Membership → Membership
check_key false c m = record m { has_key = false }
check_key true c m = record m { checking = true; error = none; pending = m.pending ++ c ∷ [] }

abbrev pub is_check : Check → Check → Bool
is_check c d = str_eq d.wallet c.wallet && (if c.connects then d.connects else not d.connects)

abbrev pub is_pending : Check → Membership → Bool
is_pending c m = is_some (find_first (is_check c) m.pending)

pub data Answer : Type 0 where
  valid_key : Bool → Answer
  failed : String → Answer

abbrev pub is_valid : Answer → Bool
is_valid (valid_key b) = b
is_valid (failed e) = false

abbrev pub error_after : Answer → Option String → Option String
error_after (valid_key b) before = before
error_after (failed e) before = some e

-- The part of `checkKey` after it waited, and the end of a connection that waited for it.
abbrev pub answered_key : Check → Answer → Membership → Membership
answered_key c reply m = record m {
  has_key = is_valid reply;
  error = error_after reply m.error;
  checking = false;
  connecting = m.connecting && not c.connects;
  pending = remove_first (is_check c) m.pending;
}

pub data Event : Type 0 where
  -- `connect`: no wallet, the wait for it, its accounts, its refusal
  wallet_missing : String → Event
  connect_asked : Event
  connected : List String → Event
  connect_failed : String → Event
  -- the wallet tells its accounts, at the start or when they change
  accounts_found : List String → Event
  accounts_changed : List String → Event
  disconnected refreshed : Event
  answered : Check → Answer → Event

-- `accounts[0]?.toLowerCase() ?? null`
abbrev pub first_account : (String → String) → List String → Option String
first_account lower [] = none
first_account lower (a ∷ accounts) = some (lower a)

abbrev pub check_of : Bool → String → Check
check_of connects w = record { wallet = w; connects = connects }

-- What a connection does with the wallet that it gave; without a lock there is nothing to wait for.
abbrev pub follow_connection : Bool → Option String → Membership → Membership
follow_connection configured none m = record m { connecting = false }
follow_connection false (some w) m = record (check_key false (check_of true w) m) {
  connecting = false;
}
follow_connection true (some w) m = check_key true (check_of true w) m

abbrev pub on_found : Bool → Option String → Membership → Membership
on_found true (some w) m = check_key true (check_of false w) (record m { address = some w })
on_found true none m = m
on_found false wallet m = m

abbrev pub follow_change : Bool → Option String → Membership → Membership
follow_change configured none m = record m { has_key = false }
follow_change configured (some w) m = check_key configured (check_of false w) m

abbrev pub on_refreshed : Bool → Option String → Membership → Membership
on_refreshed configured none m = m
on_refreshed configured (some w) m = check_key configured (check_of false w) m

unfoldable pub step : (String → String) → Bool → Event → Membership → Membership
step lower configured (wallet_missing e) m = record m { error = some e }
step lower configured connect_asked m = record m { connecting = true; error = none }
step lower configured (connected accounts) m =
    let next = first_account lower accounts in
    follow_connection configured (given next) (record m { address = next })
step lower configured (connect_failed e) m = record m { error = some e; connecting = false }
step lower configured (accounts_found accounts) m =
    on_found configured (given (first_account lower accounts)) m
step lower configured (accounts_changed accounts) m =
    let next = first_account lower accounts in
    follow_change configured (given next) (record m { address = next })
step lower configured disconnected m = record m { address = none; has_key = false; error = none }
step lower configured refreshed m = on_refreshed configured (given m.address) m
step lower configured (answered c reply) m = if is_pending c m then answered_key c reply m else m

module _ (lower : String → String) (configured : Bool) (valid : String → Bool) where
  -- The runs in which the lock answers as `valid` says, and nothing but an answer happens while a check is
  -- under way.
  pub data Quiet : Membership → Type 0 where
    begin : Quiet initial
    other :
        {m : Membership} (e : Event) → Quiet m → m.pending ≡ [] → Quiet (step lower configured e m)
    checked :
        {m : Membership} (c : Check)
        → Quiet m
        → Quiet (step lower configured (answered c (valid_key (valid c.wallet))) m)
    fail :
        {m : Membership} (c : Check) (e : String)
        → Quiet m
        → Quiet (step lower configured (answered c (failed e)) m)

module _ (valid : String → Bool) where
  -- A key, where a wallet is named, is of that wallet.
  Keyed : Membership → Type 0
  Keyed m = (w : String) → given m.address ≡ some w → m.has_key ≡ true → valid w ≡ true

  -- No check is under way; or one is, of the wallet that is named.
  Settled : Membership → Type 0
  Settled m =
      ((m.pending ≡ []) × Keyed m)
      ⊎ ((c : Check) × (m.pending ≡ c ∷ []) × (given m.address ≡ some c.wallet))

  check_key-Settled :
      (configured : Bool) (c : Check) (m : Membership)
      → m.pending ≡ []
      → given m.address ≡ some c.wallet
      → Settled (check_key configured c m)
  unfolding Settled Keyed
  check_key-Settled false c m quiet at = inl (quiet, λ w e k. ground (arith, k))
  check_key-Settled true c m quiet at = inr (c, rw quiet refl, at)

  idle-Settled : (m : Membership) → m.pending ≡ [] → Keyed m → Settled m
  unfolding Settled
  idle-Settled m quiet keyed = inl (quiet, keyed)

  follow_connection-Settled :
      (configured : Bool) (o : Option String) (m : Membership)
      → m.pending ≡ []
      → given m.address ≡ o
      → Settled (follow_connection configured o m)
  unfolding Settled Keyed
  follow_connection-Settled configured none m quiet at = inl (quiet, λ w e k. absurd (cc))
  follow_connection-Settled false (some w) m quiet at = inl (quiet, λ v e k. absurd (cc))
  follow_connection-Settled true (some w) m quiet at =
      check_key-Settled true (check_of true w) m quiet at

  on_found-Settled :
      (configured : Bool) (o : Option String) (m : Membership)
      → m.pending ≡ []
      → ((w : String) → o ≡ some w → given (some w) ≡ some w)
      → Keyed m
      → Settled (on_found configured o m)
  on_found-Settled true (some w) m quiet named keyed =
      check_key-Settled true (check_of false w) (record m { address = some w }) quiet (named w refl)
  on_found-Settled true none m quiet named keyed = idle-Settled m quiet keyed
  on_found-Settled false o m quiet named keyed = idle-Settled m quiet keyed

  follow_change-Settled :
      (configured : Bool) (o : Option String) (m : Membership)
      → m.pending ≡ []
      → given m.address ≡ o
      → Settled (follow_change configured o m)
  unfolding Settled Keyed
  follow_change-Settled configured none m quiet at = inl (quiet, λ w e k. absurd (cc))
  follow_change-Settled configured (some w) m quiet at =
      check_key-Settled configured (check_of false w) m quiet at

  on_refreshed-Settled :
      (configured : Bool) (o : Option String) (m : Membership)
      → m.pending ≡ []
      → given m.address ≡ o
      → Keyed m
      → Settled (on_refreshed configured o m)
  on_refreshed-Settled configured none m quiet at keyed = idle-Settled m quiet keyed
  on_refreshed-Settled configured (some w) m quiet at keyed =
      check_key-Settled configured (check_of false w) m quiet at

  -- Nothing answers where nothing was asked.
  answered_idle :
      (c : Check) (reply : Answer) (m : Membership)
      → m.pending ≡ []
      → (if is_pending c m then answered_key c reply m else m) ≡ m
  answered_idle c reply m quiet = rw quiet refl

  named_again : (o : Option String) (w : String) → given o ≡ some w → given (some w) ≡ some w
  named_again o w h = subst (λ (x : Option String). given x ≡ some w) (given-some o w h) h

  step-Settled :
      (lower : String → String) (configured : Bool) (e : Event) (m : Membership)
      → m.pending ≡ []
      → Keyed m
      → Settled (step lower configured e m)
  unfolding step Keyed
  step-Settled lower configured (wallet_missing e) m quiet keyed = idle-Settled _ quiet keyed
  step-Settled lower configured connect_asked m quiet keyed = idle-Settled _ quiet keyed
  step-Settled lower configured (connected accounts) m quiet keyed =
      let next = first_account lower accounts in
      follow_connection-Settled configured (given next) (record m { address = next }) quiet refl
  step-Settled lower configured (connect_failed e) m quiet keyed = idle-Settled _ quiet keyed
  step-Settled lower configured (accounts_found accounts) m quiet keyed =
      on_found-Settled configured _ m quiet (named_again (first_account lower accounts)) keyed
  step-Settled lower configured (accounts_changed accounts) m quiet keyed =
      let next = first_account lower accounts in
      follow_change-Settled configured (given next) (record m { address = next }) quiet refl
  step-Settled lower configured disconnected m quiet keyed =
      idle-Settled _ quiet (λ w e k. absurd (cc))
  step-Settled lower configured refreshed m quiet keyed =
      on_refreshed-Settled configured _ m quiet refl keyed
  step-Settled lower configured (answered c reply) m quiet keyed =
      subst Settled (sym (answered_idle c reply m quiet)) (idle-Settled m quiet keyed)

  is_check-wallet : (c d : Check) → is_check c d ≡ true → d.wallet ≡ c.wallet
  is_check-wallet c d h = (eq_iff d.wallet c.wallet).0 (ground (arith, h))

  answered-Settled :
      (c : Check) (reply : Answer) (m : Membership)
      → (is_valid reply ≡ true → valid c.wallet ≡ true)
      → Settled m
      → Settled (if is_pending c m then answered_key c reply m else m)
  unfolding Settled Keyed
  answered-Settled c reply m right (inl (quiet, keyed)) =
      subst Settled (sym (answered_idle c reply m quiet)) (inl (quiet, keyed))
  answered-Settled c reply m right (inr (d, asked, at)) = elim (Bool-cases (is_check c d)) [
    | inl same ↦ rw asked (
        rw same (
          inl (
            refl,
            λ w e k.
                subst (λ (v : String). valid v ≡ true)
                  (sym (is_check-wallet c d same) ∙ one_value (given m.address) d.wallet w at e)
                  (right k),
          )))
    | inr differs ↦ rw asked (rw differs (inr (d, refl, at)))
  ]

  initial-Settled : Settled initial
  unfolding Settled Keyed
  initial-Settled = inl (refl, λ w e k. absurd (cc))

  idle-Keyed : (m : Membership) → Settled m → m.pending ≡ [] → Keyed m
  unfolding Settled
  idle-Keyed m (inl (_, keyed)) quiet = keyed
  idle-Keyed m (inr (c, asked, _)) quiet = absurd (cc)

  Quiet-Settled :
      {lower : String → String} {configured : Bool} {m : Membership}
      → Quiet lower configured valid m
      → Settled m
  unfolding step
  Quiet-Settled begin = initial-Settled
  Quiet-Settled {lower = lower} {configured = configured} (other e q quiet) =
      step-Settled lower configured e _ quiet (idle-Keyed _ (Quiet-Settled q) quiet)
  Quiet-Settled (checked c q) =
      answered-Settled c (valid_key (valid c.wallet)) _ (λ k. k) (Quiet-Settled q)
  Quiet-Settled (fail c e q) = answered-Settled c (failed e) _ (λ k. absurd (cc)) (Quiet-Settled q)

-- Where no event but an answer came while a check was under way and the lock answered every check alike,
-- a wallet that is named and said to have a key, with no check under way, is one whose key the lock holds
-- for valid.
pub Quiet-has_key :
    (lower : String → String) (configured : Bool) (valid : String → Bool) (m : Membership)
    → (w : String) → Quiet lower configured valid m
    → m.pending ≡ []
    → given m.address ≡ some w
    → m.has_key ≡ true
    → valid w ≡ true
unfolding Keyed
Quiet-has_key lower configured valid m w q quiet named key =
    idle-Keyed valid m (Quiet-Settled valid q) quiet w named key
