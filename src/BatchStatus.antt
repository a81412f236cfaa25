-- ===== src/BatchStatus.antt =====
-- The life of a fuel batch: apps/api/src/common/batch-status.ts.
pub mod Machine
use fuel_chain.Base.{
  ℕ, suc, Bool, true, false, not, ◌&&◌, ◌||◌, Option, none, some, List, [], ◌∷◌, ◌==◌, leb,
  if◌then◌else◌,
}
use fuel_chain.Schema.{Exception, transition_refused}

pub data BatchStatus : Type 0 where
  draft authorized in_transit at_border customs received sampling : BatchStatus
  lab_analysis certified stored distributing delivered completed audit_required : BatchStatus

-- The place of a status in the enumeration, by which two statuses are compared.
abbrev pub number : BatchStatus → ℕ
number draft = 0
number authorized = 1
number in_transit = 2
number at_border = 3
number customs = 4
number received = 5
number sampling = 6
number lab_analysis = 7
number certified = 8
number stored = 9
number distributing = 10
number delivered = 11
number completed = 12
number audit_required = 13

-- `a === b`
abbrev pub same : BatchStatus → BatchStatus → Bool
same a b = number a == number b

abbrev pub forward : List BatchStatus
forward =
    draft ∷ authorized ∷ in_transit ∷ at_border ∷ customs ∷ received ∷ sampling ∷ lab_analysis
    ∷ certified ∷ stored ∷ distributing ∷ delivered ∷ completed ∷ []

-- `indexOf`, with `none` for -1
abbrev pub index_from : ℕ → BatchStatus → List BatchStatus → Option ℕ
index_from i s [] = none
index_from i s (x ∷ xs) = if same x s then some i else index_from (suc i) s xs

abbrev pub index_of : BatchStatus → Option ℕ
index_of s = index_from 0 s forward

abbrev not_before : Option ℕ → Option ℕ → Bool
not_before (some fi) (some ti) = leb fi ti
not_before _ _ = false

unfoldable pub can_transition : BatchStatus → BatchStatus → Bool
can_transition from to =
    if same from to
    then true
    else (if same to audit_required
        then true
        else (if same from audit_required
            then not (same to draft)
            else not_before (index_of from) (index_of to)))

-- `none` where the function returns
unfoldable pub assert_can_transition : BatchStatus → BatchStatus → Option Exception
assert_can_transition from to = if can_transition from to then none else some transition_refused

unfoldable pub can_issue_qr : BatchStatus → Bool
can_issue_qr s = not (same s draft) && not (same s completed) && not (same s delivered)

unfoldable pub can_receive_batch : BatchStatus → Bool
can_receive_batch s =
    same s in_transit
    || same s at_border
    || same s customs
    || same s received
    || same s sampling
    || same s lab_analysis
    || same s certified
    || same s stored
    || same s distributing
    || same s audit_required
