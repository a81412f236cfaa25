-- ===== src/BatchStatus/Machine.antt =====
-- The transitions of a batch as a relation on statuses, and what a sequence of them can do.
use fuel_chain.Base.{◌≤◌, ◌≡◌, ◌≢◌, true, false, arith}
use fuel_chain.BatchStatus.{
  BatchStatus, draft, authorized, distributing, audit_required, number, can_transition,
  can_issue_qr, can_receive_batch,
}

-- Statuses that follow one another by permitted transitions.
data Reach (s : BatchStatus) : BatchStatus → Type 0 where
  here : Reach s s
  next : {t u : BatchStatus} → Reach s t → can_transition t u ≡ true → Reach s u

-- The same, where the batch is never under audit on the way.
pub data Operates (s : BatchStatus) : BatchStatus → Type 0 where
  here : Operates s s
  next :
      {t u : BatchStatus}
      → Operates s t
      → u ≢ audit_required
      → can_transition t u ≡ true
      → Operates s u

step_stage :
    (t u : BatchStatus)
    → t ≢ audit_required
    → u ≢ audit_required
    → can_transition t u ≡ true
    → number t ≤ number u
unfolding can_transition
step_stage t u ht hu h = ground arith

step_draft : (t u : BatchStatus) → t ≢ draft → can_transition t u ≡ true → u ≢ draft
unfolding can_transition
step_draft t u h e = ground arith

-- A batch that has left DRAFT never becomes a draft again, whatever permitted transitions follow,
-- those through an audit included.
Reach-draft : {s t : BatchStatus} → Reach s t → s ≢ draft → t ≢ draft
Reach-draft here h = h
Reach-draft (next {t = t} {u = u} r e) h = step_draft t u (Reach-draft r h) e

ends_unaudited : {s t : BatchStatus} → Operates s t → s ≢ audit_required → t ≢ audit_required
ends_unaudited here h = h
ends_unaudited (next r hu e) h = hu

-- While no audit is called, permitted transitions never take a batch back to an earlier status.
pub Operates-number : {s t : BatchStatus} → Operates s t → s ≢ audit_required → number s ≤ number t
Operates-number here h = omega arith
Operates-number (next {t = t} {u = u} r hu e) h =
    omega (arith, Operates-number r h, step_stage t u (ends_unaudited r h) hu e)

to_audit : (s : BatchStatus) → can_transition s audit_required ≡ true
unfolding can_transition
to_audit s = ground arith

from_audit : (t : BatchStatus) → t ≢ draft → can_transition audit_required t ≡ true
unfolding can_transition
from_audit t h = ground arith

Reach-audit : (s t : BatchStatus) → t ≢ draft → Reach s t
Reach-audit s t h = next (next here (to_audit s)) (from_audit t h)

to_later :
    (s t : BatchStatus)
    → s ≢ audit_required
    → t ≢ audit_required
    → number s ≤ number t
    → can_transition s t ≡ true
unfolding can_transition
to_later s t hs ht h = ground arith

-- Of two statuses that are no audit, permitted transitions that never call an audit lead from the first to
-- the second where, and only where, the second is not an earlier one in the order of the enumeration.
pub Operates-iff :
    (s t : BatchStatus)
    → s ≢ audit_required
    → t ≢ audit_required
    → (Operates s t → number s ≤ number t) × (number s ≤ number t → Operates s t)
Operates-iff s t hs ht = (λ r. Operates-number r hs, λ h. next here ht (to_later s t hs ht h))

-- A status in which a delivery may be received may go on to DISTRIBUTING.
pub receivable-distributing :
    (s : BatchStatus) → can_receive_batch s ≡ true → can_transition s distributing ≡ true
unfolding can_receive_batch can_transition
receivable-distributing s h = ground arith

-- Exactly one status allows a QR to be issued and no delivery to be received: AUTHORIZED. Every
-- status that allows a delivery to be received allows a QR to be issued.
pub issue_receive :
    (s : BatchStatus)
    → (can_receive_batch s ≡ true → can_issue_qr s ≡ true)
      × (can_issue_qr s ≡ true → can_receive_batch s ≡ false → s ≡ authorized)
      × ((can_issue_qr authorized ≡ true) × (can_receive_batch authorized ≡ false))
unfolding can_receive_batch can_issue_qr
issue_receive s = ground arith
