-- ===== src/Specialists/Examples.antt =====
-- Tests of the activation decisions.
use pi_tmux_orchestrator.Prelude.{◌≡◌, refl, false, some, [], ◌∷◌, Bool, true, List}
use pi_tmux_orchestrator.Prelude.Result.{ok}
use pi_tmux_orchestrator.Prelude.Text.{len}
use pi_tmux_orchestrator.Prelude.Table.{select, exists, All}
use pi_tmux_orchestrator.Store.Rows.{Db, Activation}
use pi_tmux_orchestrator.Store.Writes.{record_event}
use pi_tmux_orchestrator.Store.Samples.{sample, implementer_row, reviewer_row}
use pi_tmux_orchestrator.Roles.Identity.{strip_prefix}
use pi_tmux_orchestrator.Prelude.Json.{Value, text, array, cons, nil}
use pi_tmux_orchestrator.Roles.Contracts.{django}
use pi_tmux_orchestrator.Attention.Validate.{is_blank}
use pi_tmux_orchestrator.Specialists.Paths.{
  Codes, codes, lower, slashes, is_text, is_in, split_slash, parts_of, parts, last_dot, scan_words,
}
use pi_tmux_orchestrator.Specialists.Decide.{
  any, all, item_paths, normalized_paths, is_documentation, django_path, decide_specialist,
  decide_initial_probe,
}
use pi_tmux_orchestrator.Specialists.Skipped.{IsHarmless, decide_specialist_skips}
use pi_tmux_orchestrator.Specialists.Activation.{
  activated, record_specialist_activation, is_valid_activation, is_rule_id, all_rule_chars,
}
use pi_tmux_orchestrator.Specialists.Immutable.{
  decision_of, decision_of-record_specialist_activation, record_specialist_activation_keeps,
}

abbrev with_probe : Db
with_probe = record sample {
  roles = implementer_row ∷ reviewer_row ∷ record reviewer_row { role = "probe" } ∷ [];
}

abbrev decision : Activation
decision = record {
  role = "probe";
  round = 1;
  decision = "run";
  rule_id = "probe-ambiguous-task-v1";
  forced = false;
}

abbrev second_round : Activation
second_round = record decision {
  round = 2;
  decision = "skipped";
  rule_id = "probe-docs-only-paths-v1";
}

recorded : record_specialist_activation decision with_probe ≡ ok (tt, activated decision with_probe)
unfolding record_specialist_activation is_valid_activation is_rule_id all_rule_chars strip_prefix
    len select exists
recorded = refl

recorded_again :
    record_specialist_activation second_round (activated decision with_probe)
    ≡ ok (tt, activated second_round (activated decision with_probe))
unfolding record_specialist_activation is_valid_activation is_rule_id all_rule_chars strip_prefix
    len select exists record_event
recorded_again = refl

decision_of-record_specialist_activation_example :
    decision_of decision (activated decision with_probe) ≡ some decision
decision_of-record_specialist_activation_example =
    decision_of-record_specialist_activation decision with_probe recorded

record_specialist_activation_keeps_example :
    decision_of decision (activated second_round (activated decision with_probe)) ≡ some decision
record_specialist_activation_keeps_example =
    record_specialist_activation_keeps second_round decision decision
      (activated decision with_probe) recorded_again
      decision_of-record_specialist_activation_example

abbrev changed : Value
changed = array (cons (text "README") (cons (text "docs\\Guide.RST") nil))

django_is_skipped : (decide_specialist django changed false).run ≡ false
unfolding decide_specialist normalized_paths item_paths codes slashes lower any all is_documentation
    django_path is_text is_in split_slash parts_of parts last_dot
django_is_skipped = refl

decide_specialist_skips_example :
    (◌≡◌ {A = Bool} false false)
    × (paths : List Codes) × (normalized_paths changed ≡ some paths)
    × All (IsHarmless django) paths
decide_specialist_skips_example = decide_specialist_skips django changed false django_is_skipped

template_runs :
    (decide_specialist django (array (cons (text "app/Templates/a.md") nil)) false).run ≡ true
unfolding decide_specialist normalized_paths item_paths codes slashes lower any all is_documentation
    django_path is_text is_in split_slash parts_of parts last_dot
template_runs = refl

typo_is_skipped : (decide_initial_probe (text "Fix a typo, please") false).run ≡ false
unfolding decide_initial_probe is_blank codes lower scan_words any is_in is_text
typo_is_skipped = refl
