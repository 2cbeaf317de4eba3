-- ===== src/Modifications.antt =====
-- ampc-server-utils/src/modifications.rs: how a party finds, from the snapshots of all parties,
-- which of its recorded modifications it rolls forward and which it deletes. A text is a string, an
-- identifier a number; the texts of errors are left out.
pub mod Recovery
pub mod Groups
pub mod Plan
pub mod Resolve
pub mod Consistent
pub mod Lookback
pub mod Outcome
pub mod Agreement
mod Tests
use Prim.Native.String.{String}
use ampc_common.Base.{
  ℕ, zero, suc, ◌+◌, ◌-◌, List, [], ◌∷◌, ◌++◌, Bool, true, false, ◌&&◌, ◌||◌, not, ltb, leb, ◌==◌,
  if◌then◌else◌, Option, none, some, ◌≡◌, ap, ◌↔◌,
}
use ampc_common.Base.Bytes.{Read, ok, bail, panic, ◌>>=◌, ◌>>◌, ensure}
use ampc_common.Base.Equality.{Eq, ◌=?◌, same_equal, nat_eq, string_eq, bool_eq, option_eq}

abbrev pub mod_status_in_progress : String
mod_status_in_progress = "IN_PROGRESS"

abbrev pub mod_status_completed : String
mod_status_completed = "COMPLETED"

pub data ModificationInputReference : Type 0 where
  s3 inline : String → ModificationInputReference

abbrev pub input_test : ModificationInputReference → ModificationInputReference → Bool
input_test (s3 a) (s3 b) = a =? b
input_test (s3 a) (inline b) = false
input_test (inline a) (s3 b) = false
input_test (inline a) (inline b) = a =? b

pub input_test_iff : (a b : ModificationInputReference) → (input_test a b ≡ true) ↔ (a ≡ b)
input_test_iff (s3 a) (s3 b) = (λ h. ap s3 (same_equal a b h), λ h. (string_eq.test_iff a b).1 (cc))
input_test_iff (s3 a) (inline b) = (λ h. cc, λ h. cc)
input_test_iff (inline a) (s3 b) = (λ h. cc, λ h. cc)
input_test_iff (inline a) (inline b) =
    (λ h. ap inline (same_equal a b h), λ h. (string_eq.test_iff a b).1 (cc))

instance unfoldable pub input_eq : Eq ModificationInputReference
input_eq = record { test = input_test; test_iff = input_test_iff }

pub record Modification : Type 0 where
  pub id : ℕ
  pub serial_id : Option ℕ
  pub request_type : String
  pub input : Option ModificationInputReference
  pub status : String
  pub persisted : Bool
  pub result_message_body : Option String

-- `PartialEq`, which ignores the body of the result.
unfoldable pub eq : Modification → Modification → Bool
eq m m' =
    m.id == m'.id
    && m.serial_id =? m'.serial_id
    && m.request_type =? m'.request_type
    && m.input =? m'.input
    && m.status =? m'.status
    && m.persisted =? m'.persisted

-- `updated_serial_id.map(..)` keeps the serial number when there is none.
unfoldable pub updated : Option ℕ → Option ℕ → Option ℕ
updated none old = old
updated (some serial_id) old = some serial_id

unfoldable pub mark_completed : Modification → Bool → String → Option ℕ → Modification
mark_completed m persisted result_message_body updated_serial_id = record m {
  status = mod_status_completed;
  result_message_body = some result_message_body;
  persisted = persisted;
  serial_id = updated updated_serial_id m.serial_id;
}

-- The serial numbers that are there are equal; the first argument is the one found so far.
unfoldable pub next_serial : Option ℕ → Option ℕ → Read (Option ℕ)
next_serial serial_id none = ok serial_id
next_serial none (some current) = ok (some current)
next_serial (some previous) (some current) = if previous =? current then ok (some current) else bail

unfoldable pub check_loop : Modification → Option ℕ → List Modification → Read (Unit {0})
check_loop first serial_id [] = ok tt
check_loop first serial_id (m ∷ ms) = do
  ensure (first.id == m.id)
  ensure (first.request_type =? m.request_type)
  ensure (first.input =? m.input)
  ensure (m.status =? mod_status_in_progress || m.status =? mod_status_completed)
  serial_id' ← next_serial serial_id m.serial_id
  check_loop first serial_id' ms

unfoldable pub check_modifications_consistency : List Modification → Read (Unit {0})
check_modifications_consistency [] = panic
check_modifications_consistency (first ∷ ms) = check_loop first none (first ∷ ms)

-- `iter().any`, `iter().all`, `iter().find` and `find_map` on the serial numbers.
unfoldable pub any : (Modification → Bool) → List Modification → Bool
any test [] = false
any test (m ∷ ms) = test m || any test ms

unfoldable pub all : (Modification → Bool) → List Modification → Bool
all test [] = true
all test (m ∷ ms) = test m && all test ms

unfoldable pub find : (Modification → Bool) → List Modification → Option Modification
find test [] = none
find test (m ∷ ms) = if test m then some m else find test ms

unfoldable pub or_else {ℓ} : {A : Type ℓ} → Option A → Option A → Option A
or_else none other = other
or_else (some a) other = some a

unfoldable pub find_serial : List Modification → Option ℕ
find_serial [] = none
find_serial (m ∷ ms) = or_else m.serial_id (find_serial ms)

-- A modification is put at the end of the group of its identifier; the groups are in the order of
-- their identifiers.
unfoldable pub push_group :
    Modification → List (ℕ × List Modification) → List (ℕ × List Modification)
push_group m [] = (m.id, m ∷ []) ∷ []
push_group m ((id, group) ∷ groups) =
    let rest = push_group m groups in
    if m.id == id
    then (id, group ++ m ∷ []) ∷ groups
    else if ltb m.id id
    then (m.id, m ∷ []) ∷ (id, group) ∷ groups
    else (id, group) ∷ rest

unfoldable pub group_all :
    List Modification → List (ℕ × List Modification) → List (ℕ × List Modification)
group_all [] grouped = grouped
group_all (m ∷ ms) grouped = group_all ms (push_group m grouped)

unfoldable pub flatten : List (List Modification) → List Modification
flatten [] = []
flatten (ms ∷ states) = ms ++ flatten states

-- What is planned for one identifier.
pub data Decision : Type 0 where
  keep : Decision
  update delete : Modification → Decision

unfoldable pub is_completed : Modification → Bool
is_completed m = m.status =? mod_status_completed

unfoldable pub is_in_progress : Modification → Bool
is_in_progress m = m.status =? mod_status_in_progress

-- The first completed modification with the serial number, or else the first completed one.
unfoldable pub first_completed : List Modification → Option Modification
first_completed group =
    or_else (find (λ m. is_completed m && m.serial_id =? find_serial group) group)
      (find is_completed group)

-- `roll_forward`, where no completed modification is a panic.
unfoldable pub roll_forward : List Modification → Read Modification
roll_forward group = elim (first_completed group) [
  | none ↦ panic
  | some m ↦ ok (record m {
    status = mod_status_completed;
    persisted = any (λ m'. m'.persisted) group;
    serial_id = find_serial group;
  })
]

unfoldable pub decide_deleted : Option Modification → Decision
decide_deleted none = keep
decide_deleted (some local_m) = delete local_m

-- The group has a completed modification, and `forward` is the rolled forward one.
unfoldable pub decide_completed : List Modification → Modification → Option Modification → Decision
decide_completed group forward none = keep
decide_completed group forward (some local_m) =
    if not (local_m.status =? mod_status_completed)
      || not (local_m.persisted =? any (λ m. m.persisted) group)
      || not (local_m.serial_id =? find_serial group)
    then update forward
    else keep

unfoldable pub decide : Option Modification → List Modification → Read Decision
decide local_copy group =
    if all is_in_progress group
    then ok (decide_deleted local_copy)
    else if any is_completed group
    then (do forward ← roll_forward group; ok (decide_completed group forward local_copy))
    else bail

pub record ModificationPlan : Type 0 where
  pub to_update : List Modification
  pub to_delete : List Modification

unfoldable pub add_decision : Decision → ModificationPlan → ModificationPlan
add_decision keep plan = plan
add_decision (update m) plan = record plan { to_update = m ∷ plan.to_update }
add_decision (delete m) plan = record plan { to_delete = m ∷ plan.to_delete }

unfoldable pub plan_groups :
    List Modification → List (ℕ × List Modification) → Read ModificationPlan
plan_groups my [] = ok (record { to_update = []; to_delete = [] })
plan_groups my ((id, group) ∷ groups) = do
  check_modifications_consistency group
  decision ← decide (find (λ m. m.id == id) my) group
  plan ← plan_groups my groups
  ok (add_decision decision plan)

unfoldable pub compare_modifications :
    List Modification → List (List Modification) → Read ModificationPlan
compare_modifications my states = plan_groups my (group_all (flatten states) [])
