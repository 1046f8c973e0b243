-- ===== src/Control/Examples.antt =====
-- Tests of the operator's commands on the sample run.
use pi_tmux_orchestrator.Prelude.{String, ◌≡◌, refl, true, none, [], ◌∷◌, contains}
use pi_tmux_orchestrator.Prelude.Result.{Result, ok, err, unauthorized}
use pi_tmux_orchestrator.Prelude.Json.{
  Fields, null, int, text, field, end, get, keys_within, keys_include,
}
use pi_tmux_orchestrator.Prelude.Text.{len}
use pi_tmux_orchestrator.Prelude.Table.{select}
use pi_tmux_orchestrator.Store.Samples.{sample}
use pi_tmux_orchestrator.Broker.State.{Broker}
use pi_tmux_orchestrator.Broker.Transport.{◌>>=◌, transact}
use pi_tmux_orchestrator.Protocol.Identity.{is_token, all_hex}
use pi_tmux_orchestrator.Workflow.Deliver.{Run}
use pi_tmux_orchestrator.Control.Request.{Command, restart, validate_control, call_extension}
use pi_tmux_orchestrator.Control.Decide.{
  check_command, branch_of, settle_tx, branch_tx, restarted_tx,
}
use pi_tmux_orchestrator.Control.Handle.{
  handle_control, handle_command, settle, settle_fresh, before_settling, after_settling, send_raw,
  receipt,
}
use pi_tmux_orchestrator.Control.Receipts.{IsExtended}
use pi_tmux_orchestrator.Control.Replayed.{handle_command-IsExtended, handle_control-handle_control}

abbrev control_token : String
control_token = "cccccccccccccccccccccccccccccccc"

abbrev command_id : String
command_id = "dddddddddddddddddddddddddddddddd"

abbrev idle : Broker
idle = record {
  db = sample;
  clients = [];
  link = [];
  sent = [];
  observed = [];
  pending_run_state = [];
  role_run_state = [];
  drawn = 0;
  recent_reports = [];
  latest_reports = [];
  baselines = "implementer" ∷ [];
  answered = [];
}

abbrev sample_run : Run
sample_run = record {
  roles = "implementer" ∷ "reviewer" ∷ [];
  version = 11;
  custom_contracts = [];
  retained_roles = [];
  token = λ n. "t0";
}

abbrev message : String → Fields
message token = field "version" (int 1) (
    field "type" (text "control") (
      field "token" (text token) (
        field "id" (text command_id) (
          field "action" (text "restart") (
            field "role" (text "implementer")
              (field "delivery" null (field "message" null end)))))))

abbrev unchecked : String → Result (Unit {0})
unchecked role = ok tt

abbrev restart_implementer : Command
restart_implementer = record {
  id = command_id;
  token = control_token;
  role = "implementer";
  action = restart;
  delivery = none;
  extension = 0;
}

restart_is_valid :
    validate_control ("implementer" ∷ "reviewer" ∷ []) (message control_token)
    ≡ ok restart_implementer
unfolding validate_control get keys_within keys_include call_extension is_token all_hex len contains
restart_is_valid = refl

restart_is_accepted : (handle_control sample_run unchecked (message control_token) idle).0 ≡ ok tt
unfolding handle_control validate_control get keys_within keys_include call_extension is_token
    all_hex len contains ◌>>=◌ handle_command transact check_command select settle_fresh branch_of
    settle before_settling settle_tx branch_tx restarted_tx after_settling send_raw
restart_is_accepted = refl

handle_control-handle_control_example :
    (c : Command) × (status : String) × (validate_control
        ("implementer" ∷ "reviewer" ∷ [])
        (message control_token)
      ≡ ok c)
    × (handle_control sample_run unchecked
          (message control_token)
          (handle_control sample_run unchecked (message control_token) idle).1
        ≡ send_raw
            (receipt c status true)
            (handle_control sample_run unchecked (message control_token) idle).1)
handle_control-handle_control_example =
    handle_control-handle_control sample_run unchecked (message control_token) idle
      restart_is_accepted

handle_command-IsExtended_example :
    IsExtended restart_implementer []
      (handle_command sample_run unchecked restart_implementer idle).1.db.control_commands
handle_command-IsExtended_example =
    handle_command-IsExtended sample_run unchecked restart_implementer idle

-- Another token.
wrong_token : (handle_control sample_run unchecked (message command_id) idle).0 ≡ err unauthorized
unfolding handle_control validate_control get keys_within keys_include call_extension is_token
    all_hex len contains ◌>>=◌ handle_command transact check_command
wrong_token = refl
