-- ===== src/Custody/Issue/Sealed.antt =====
-- The payload that `issue` gives a baton is one that `accept` takes.
use fuel_chain.Base.{◌+◌, ◌/◌, ◌≤◌, ℕ, ◌≡◌, refl, some, ok, arith, true}
use fuel_chain.Base.Int.{pos}
use fuel_chain.Store.{Actor}
use fuel_chain.Custody.Payload.{
  Config, seal, IsCore, assert_embedded_signature, expires_unix, assert_embedded_signature-seal,
}
use fuel_chain.Custody.Issue.{IssueInput, Plan}
use fuel_chain.Custody.Issue.Baton.{Draw, core_of, payload_of, expires_sec}
use fuel_chain.Custody.Accept.{check_embedded}

core_of-IsCore :
    (c : Config) (input : IssueInput) (actor : Actor) (draw : Draw) (plan : Plan)
    → IsCore (core_of c input actor draw plan)
unfolding core_of
core_of-IsCore c input actor draw plan = ground arith

payload_of-expires :
    (c : Config) (input : IssueInput) (actor : Actor) (draw : Draw) (plan : Plan)
    → expires_unix (payload_of c input actor draw plan) ≡ some (pos (expires_sec draw))
unfolding expires_unix payload_of core_of seal
payload_of-expires c input actor draw plan = refl

payload_of-signature :
    (c : Config) (input : IssueInput) (actor : Actor) (draw : Draw) (plan : Plan)
    → c.has_secret ≡ true
    → assert_embedded_signature c (payload_of c input actor draw plan) ≡ ok tt
unfolding payload_of
payload_of-signature c input actor draw plan secret_set =
    assert_embedded_signature-seal c (core_of c input actor draw plan) secret_set
      (core_of-IsCore c input actor draw plan)

-- The payload of a baton that the server issued, with its secret set, passes the checks of a
-- reception, its signature and its time, for 72 hours from the second of its issue.
pub payload_of-accepted :
    (c : Config) (input : IssueInput) (actor : Actor) (draw : Draw) (plan : Plan) (now : ℕ)
    → c.has_secret ≡ true
    → now / 1000 ≤ draw.now / 1000 + 259200
    → check_embedded c (some (payload_of c input actor draw plan)) now ≡ ok tt
unfolding check_embedded
payload_of-accepted c input actor draw plan now secret_set early =
    rw
      (
        payload_of-signature c input actor draw plan secret_set,
        payload_of-expires c input actor draw plan,
      )
      (ground (arith, early))
