-- ===== src/Admission/Ledger.antt =====
-- `admission_status`, `reserve_provider_turn` and `extend_call_allowance` of call_admission.py.
use pi_tmux_orchestrator.Prelude.{
  ℕ, ◌+◌, String, Bool, true, false, not, ◌&&◌, ◌||◌, Option, none, some, List, [], ◌∷◌, leb, ltb,
  ◌==◌, String_eq, ℕ_eq, Option_eq, if◌then◌else◌, is_some,
}
use pi_tmux_orchestrator.Prelude.Result.{
  Result, ok, err, orchestration_error, conflict, internal_error,
}
use pi_tmux_orchestrator.Prelude.Result
use pi_tmux_orchestrator.Prelude.Json.{Value, int, decoded}
use pi_tmux_orchestrator.Prelude.Table.{select, exists, count, insert, length}
use pi_tmux_orchestrator.Store.Rows.{Db, Admission, RoleRow, Assignment}
use pi_tmux_orchestrator.Store.Writes.{
  Tx, ◌>>=◌, ◌>>◌, pure, raise, lift, gets, modify, when, is_paused,
}
use pi_tmux_orchestrator.Admission.Policy.{
  Scope, run, role, assignment, Limits, call_limit, call_policy, retained_call_policy, policy_value,
  max_call_allowance,
}

-- `{}` is false, any other dict is true.
abbrev pub is_enabled : Limits → Bool
is_enabled [] = false
is_enabled (x ∷ xs) = true

pub record Status : Type 0 where
  pub limits : Limits
  pub admitted_turns : ℕ
  pub paused : Bool

abbrev pub policy : Db → Result Limits
policy db = retained_call_policy db.meta.schema_version db.meta.call_admission_policy

-- The row of the pause is not '0' or '1', or it is missing while a policy is enforced.
abbrev pub is_bad_pause : Bool → Option String → Bool
is_bad_pause enabled none = enabled
is_bad_pause enabled (some value) = not (value == "0" || value == "1")

abbrev pub is_granted : Admission → Bool
is_granted row = row.granted

unfoldable pub admission_status : Db → Result Status
admission_status db = Result.◌>>=◌ (policy db) λ limits.
    if is_bad_pause (is_enabled limits) db.meta.call_admission_paused
    then err orchestration_error
    else ok (record {
      limits = limits;
      admitted_turns = if is_enabled limits then count is_granted db.admissions else 0;
      paused = is_paused db;
    })

pub record Request : Type 0 where
  pub request_id : String
  pub role : String
  pub assignment_id : String
  pub generation : ℕ
  pub resume_id : Option String

-- The rows that count against a ceiling for this request.
abbrev pub counts : Scope → Request → Admission → Bool
counts run r row = row.granted
counts role r row = row.granted && row.role == r.role
counts assignment r row = row.granted && row.assignment_id == r.assignment_id

-- The loop over the ceilings, which starts from `granted`.
unfoldable pub within_ceilings : Limits → Request → List Admission → Bool → Bool
within_ceilings [] r rows granted = granted
within_ceilings ((scope, ceiling) ∷ rest) r rows granted =
    within_ceilings rest r rows (granted && ltb (count (counts scope r) rows) ceiling)

abbrev pub same_identity : Admission → Request → Bool
same_identity row r =
    row.role == r.role
    && row.assignment_id == r.assignment_id
    && row.generation == r.generation
    && row.resume_id == r.resume_id

abbrev pub admission_row : Request → Bool → Admission
admission_row r granted = record {
  id = r.request_id;
  role = r.role;
  assignment_id = r.assignment_id;
  generation = r.generation;
  resume_id = r.resume_id;
  granted = granted;
}

-- UPDATE meta SET value='1' WHERE key='call_admission_paused', which needs the row to be there
abbrev pub pause_update : Db → Db
pause_update db =
    if is_some db.meta.call_admission_paused
    then record db { meta = record db.meta { call_admission_paused = some "1" } }
    else db

-- INSERT OR REPLACE INTO meta(key,value) VALUES ('call_admission_paused','1')
abbrev pub pause_replace : Db → Db
pause_replace db = record db { meta = record db.meta { call_admission_paused = some "1" } }

-- REFERENCES roles(role), REFERENCES assignments(id)
abbrev pub has_references : Request → Db → Bool
has_references r db =
    exists (λ (x : RoleRow). x.role == r.role) db.roles
    && exists (λ (a : Assignment). a.id == r.assignment_id) db.assignments

-- INSERT INTO provider_admissions, whose foreign keys are enforced
abbrev pub insert_referenced : Bool → Request → Bool → Tx (Unit {0})
insert_referenced true r granted db =
    ok (tt, record db { admissions = insert (admission_row r granted) db.admissions })
insert_referenced false r granted db = err internal_error

abbrev pub insert_admission : Request → Bool → Tx (Unit {0})
insert_admission r granted db = insert_referenced (has_references r db) r granted db

-- The request is new and the table has room: it is decided, recorded, and a denial pauses the run.
unfoldable pub decide : Limits → Request → Tx Bool
decide limits r = do
  status ← (λ db. lift (admission_status db) db)
  rows ← gets (λ db. db.admissions)
  let granted = within_ceilings limits r rows (not status.paused)
  insert_admission r granted
  when (not granted) (modify pause_replace)
  pure granted

-- A receipt with this id is there: the same identity is denied, another one is a conflict.
abbrev pub known_receipt : Option Admission → Request → Tx Bool → Tx Bool
known_receipt (some row) r fresh = if same_identity row r then pure false else raise conflict
known_receipt none r fresh = fresh

unfoldable pub reserve_provider_turn : Request → Tx Bool
reserve_provider_turn r = do
  limits ← (λ db. lift (policy db) db)
  if not (is_enabled limits) then raise conflict else do
    previous ← gets (λ db. select (λ (row : Admission). row.id == r.request_id) db.admissions)
    rows ← gets (λ db. length db.admissions)
    known_receipt previous r (
        if leb max_call_allowance rows
        then (do modify pause_update; pure false)
        else decide limits r)

-- {scope: call_limit(value + extra) for scope, value in limits.items()}
unfoldable pub raised_limits : ℕ → Limits → Result Limits
raised_limits extra [] = ok []
raised_limits extra ((scope, value) ∷ rest) =
    Result.◌>>=◌ (call_limit (int (value + extra)))
      λ n. Result.◌>>=◌ (raised_limits extra rest) λ more. ok ((scope, n) ∷ more)

unfoldable pub extend_call_allowance : Value → Tx (Unit {0})
extend_call_allowance additional = do
  extra ← lift (call_limit additional)
  status ← (λ db. lift (admission_status db) db)
  if not status.paused || not (is_enabled status.limits) then raise conflict else do
    limits ← lift (raised_limits extra status.limits)
    checked ← lift (call_policy (policy_value limits))
    modify (λ db. record db {
      meta = record db.meta {
        call_admission_policy = decoded (policy_value checked);
        call_admission_paused = some "0";
      };
    })
