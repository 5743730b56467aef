-- ===== src/Tests/Arithmetic.antt =====
-- Runs of the evaluator and of the decoder of `$'...'`, and their theorems at concrete inputs.
use cshell.Prelude.{
  ℕ, suc, ◌+◌, ◌≤◌, ◌<◌, ◌%◌, Bool, true, false, Option, none, some, List, [], ◌∷◌, ◌≡◌, refl,
  arith, if◌then◌else◌, ltb,
}
use cshell.Prelude.Bytes.{Bytes, codes}
use cshell.Prelude.Int.{ℤ, pos, negsuc, ◌+ℤ◌, ◌-ℤ◌}
use cshell.Prelude.Memory.{Memory}
use cshell.State.{State}
use cshell.Arith.{Parser, ArithResult, add, sub, question, long_max}
use cshell.Arith.Lexer.{next_token}
use cshell.Arith.Lexer.Progress.{measure, measure-next_token}
use cshell.Arith.Operation.{value, fails, operation}
use cshell.Arith.Operation.Exact.{in_range, operation-add, operation-sub}
use cshell.Arith.Expression.{expression}
use cshell.Arith.Expression.Total.{Returns, expression-Returns}
use cshell.Arith.Expression.Silent.{Keeps, expression-Keeps}
use cshell.Arith.Eval.{eval, probe, probe_prefix, start_parser}
use cshell.Arith.Eval.Total.{Answers, eval-Answers, probe-Answers}
use cshell.Arith.Eval.Rollback.{AnswersAllOrNothing, eval-AllOrNothing}
use cshell.Character.{Characters, Count, invalid}
use cshell.Quote.{ok, decode}
use cshell.Quote.Bounds.{DecodesWithin, decode-DecodesWithin}
use cshell.Tests.{all_locales, shell, shell-IsState, shell-IsFresh, one_payload}

-- A stack with room for ten nested calls.
abbrev room : ℕ → Bool
room n = ltb n 10

abbrev no_options_parser : Bytes → Parser
no_options_parser text = next_token (start_parser text shell (λ o. false) [])

-- C locale: a byte above 127 is no character.
abbrev c_characters : Characters
c_characters = record { mbrlen = λ lexical text. Count.invalid; btowc = λ c. ltb c 128 }

operation-add_example : operation add (pos long_max) (pos 1) ≡ (
    if in_range (pos long_max +ℤ pos 1)
    then value (pos long_max +ℤ pos 1)
    else fails ArithResult.range)
operation-add_example = operation-add (pos long_max) (pos 1) refl refl

operation-sub_example : operation sub (negsuc long_max) (pos 1) ≡ (
    if in_range (negsuc long_max -ℤ pos 1)
    then value (negsuc long_max -ℤ pos 1)
    else fails ArithResult.range)
operation-sub_example = operation-sub (negsuc long_max) (pos 1) refl refl

measure-next_token_example :
    measure (next_token (record (start_parser (codes "1+x") shell (λ o. false) []) { token = add }))
    < measure (record (start_parser (codes "1+x") shell (λ o. false) []) { token = add })
measure-next_token_example =
    measure-next_token (record (start_parser (codes "1+x") shell (λ o. false) []) { token = add })
      refl

expression-Returns_example :
    Returns
      (measure (start_parser (codes "y=2,y") shell (λ o. false) []))
      (expression all_locales room 6 0 1 true (start_parser (codes "y=2,y") shell (λ o. false) []))
expression-Returns_example =
    expression-Returns all_locales room 6 0 1 true
      (start_parser (codes "y=2,y") shell (λ o. false) []) (omega arith) (omega arith)

expression-Keeps_example :
    Keeps
      (no_options_parser (codes "y=2"))
      (expression all_locales room 5 0 1 false (no_options_parser (codes "y=2")))
expression-Keeps_example = expression-Keeps all_locales room 5 0 1 (no_options_parser (codes "y=2"))

eval-Answers_example : Answers (eval all_locales room (codes "y=N*2") shell one_payload [])
eval-Answers_example = eval-Answers all_locales room (codes "y=N*2") shell one_payload []

probe-Answers_example :
    Answers (probe all_locales room shell (codes "(1"))
    × Answers (probe_prefix all_locales room shell (codes "(1"))
probe-Answers_example = probe-Answers all_locales room shell (codes "(1")

eval-AllOrNothing_example :
    AnswersAllOrNothing shell (eval all_locales room (codes "y=1,N=2") shell one_payload [])
eval-AllOrNothing_example =
    eval-AllOrNothing all_locales room (codes "y=1,N=2") shell one_payload [] shell-IsState
      shell-IsFresh refl

decode-DecodesWithin_example : DecodesWithin 10 (decode c_characters (codes "a\\x41\\n\\cA") [])
decode-DecodesWithin_example = decode-DecodesWithin c_characters (codes "a\\x41\\n\\cA") []

-- The number that an evaluation writes.
abbrev output : Bytes → Option ℤ
output text = elim (eval all_locales room text shell one_payload []) [
  | none ↦ none
  | some e ↦ e.out
]

-- The second fails as N is readonly; the third does not evaluate the branch that assigns to it.
evaluations_test :
    (output (codes "y=N*2, y+0x10 - -3") ≡ some (pos 29))
    × (output (codes "N=1") ≡ none)
    × (output (codes "N>4 ? 07 : (N=1)") ≡ some (pos 7))
    × (output (codes "-9223372036854775808") ≡ some (negsuc long_max))
unfolding cshell.Prelude.Bytes.bytes_eq cshell.Prelude.Bytes.bytes_lt cshell.Prelude.Table.find
    cshell.Prelude.Table.assign cshell.Prelude.Table.remove cshell.Prelude.Table.put_last
    cshell.Prelude.Memory.allocate cshell.Prelude.Memory.allocations cshell.Prelude.Int.◌+ℤ◌
    cshell.Prelude.Int.◌-ℤ◌ cshell.Prelude.Int.◌*ℤ◌ cshell.Prelude.Int.neg_ℤ cshell.Prelude.Int.quot
    cshell.Prelude.Int.rem cshell.State.name_start cshell.State.name_byte cshell.State.name_bytes
    cshell.State.valid_name cshell.State.Variables.get_variable cshell.State.Variables.path_changed
    cshell.State.Variables.optind_changed cshell.State.Variables.locale_changed
    cshell.State.Variables.after_assignment cshell.State.Variables.assign_old
    cshell.State.Variables.assign_new cshell.State.Variables.set_variable
    cshell.State.Variables.unset_variable cshell.State.Variables.bad_masks
    cshell.State.Variables.mark_old cshell.State.Variables.mark_new
    cshell.State.Variables.update_attributes cshell.State.Snapshot.◌then_copy◌
    cshell.State.Snapshot.is_ok cshell.State.Snapshot.copy_arg0
    cshell.State.Snapshot.copy_parameters cshell.State.Snapshot.variable_cost
    cshell.State.Snapshot.copy_variable cshell.State.Snapshot.copy_variables
    cshell.State.Snapshot.copy_functions cshell.State.Snapshot.copy_aliases
    cshell.State.Snapshot.copy_hashes cshell.State.Snapshot.copy_rest cshell.State.Snapshot.copy_all
    cshell.State.Snapshot.release_all cshell.State.Snapshot.finish_copy cshell.State.Snapshot.clone
    cshell.State.Snapshot.save cshell.State.Snapshot.checkpoint_destroy
    cshell.State.Snapshot.restore cshell.State.Locale.category_name
    cshell.State.Locale.locale_variable cshell.State.Locale.non_empty
    cshell.State.Locale.locale_value cshell.State.Locale.or_else cshell.State.Locale.selected
    cshell.State.Locale.set_category cshell.State.Locale.refresh_loop
    cshell.State.Locale.refresh_locale cshell.State.Locale.manage_locale
    cshell.State.Parameters.set_parameters cshell.State.Parameters.parameter
    cshell.State.Parameters.push_parameters cshell.State.Parameters.pop_parameters
    cshell.State.Parameters.set_status cshell.State.Parameters.set_background
    cshell.State.Parameters.set_errexit_ignored cshell.State.Parameters.set_function_depth
    cshell.State.Parameters.set_source_depth cshell.State.Parameters.overlap
    cshell.State.Parameters.update_options cshell.State.Functions.retain
    cshell.State.Functions.release cshell.State.Functions.function
    cshell.State.Functions.remove_function cshell.State.Functions.set_function
    cshell.State.Hashes.hash_clear cshell.State.Hashes.hash_get cshell.State.Hashes.hash_set
    cshell.State.Hashes.hash_names cshell.State.Hashes.variable_names
    cshell.State.Hashes.state_aliases cshell.Alias.message cshell.Alias.alias_byte
    cshell.Alias.alias_bytes cshell.Alias.valid_name cshell.Alias.get cshell.Alias.insert_sorted
    cshell.Alias.set_alias cshell.Alias.unset_alias cshell.Alias.clone_onto cshell.Alias.clone
    cshell.Arith.Literal.digit_value cshell.Arith.Literal.scan_digit
    cshell.Arith.Literal.scan_digits cshell.Arith.Literal.base_of
    cshell.Arith.Literal.finish_literal cshell.Arith.Literal.literal
    cshell.Arith.Literal.decimal_loop cshell.Arith.Literal.print_long cshell.Arith.Lexer.name_start
    cshell.Arith.Lexer.digit cshell.Arith.Lexer.space cshell.Arith.Lexer.operators
    cshell.Arith.Lexer.skip_spaces cshell.Arith.Lexer.take_word cshell.Arith.Lexer.strip_prefix
    cshell.Arith.Lexer.find_operator cshell.Arith.Lexer.scan_token cshell.Arith.Lexer.next_token
    cshell.Arith.Operation.add_overflows cshell.Arith.Operation.sub_overflows
    cshell.Arith.Operation.mul_overflows cshell.Arith.Operation.div_undefined
    cshell.Arith.Operation.shift_left cshell.Arith.Operation.shift_right
    cshell.Arith.Operation.to_word cshell.Arith.Operation.of_word cshell.Arith.Operation.complement
    cshell.Arith.Operation.operation cshell.Arith.Values.precedence
    cshell.Arith.Values.assignment_operation cshell.Arith.Values.is_ok cshell.Arith.Values.is_end
    cshell.Arith.Values.is_rparen cshell.Arith.Values.is_colon cshell.Arith.Values.is_assign
    cshell.Arith.Values.read_signed cshell.Arith.Values.read_text cshell.Arith.Values.read_name
    cshell.Arith.Values.read_value cshell.Arith.Values.state_error
    cshell.Arith.Values.export_assigned cshell.Arith.Values.assign_value
    cshell.Arith.Expression.◌then_run◌ cshell.Arith.Expression.prefix cshell.Arith.Expression.is_sub
    cshell.Arith.Expression.no_name cshell.Arith.Expression.apply_prefix
    cshell.Arith.Expression.close_paren cshell.Arith.Expression.primary_number
    cshell.Arith.Expression.primary_prefix cshell.Arith.Expression.primary_at
    cshell.Arith.Expression.◌then_round◌ cshell.Arith.Expression.second_branch
    cshell.Arith.Expression.conditional cshell.Arith.Expression.right_execute
    cshell.Arith.Expression.computed cshell.Arith.Expression.store_computed
    cshell.Arith.Expression.store cshell.Arith.Expression.combine cshell.Arith.Expression.binary
    cshell.Arith.Expression.round_on cshell.Arith.Expression.round cshell.Arith.Expression.loop
    cshell.Arith.Expression.expression cshell.Arith.Eval.finish_read cshell.Arith.Eval.check_end
    cshell.Arith.Eval.run cshell.Arith.Eval.probe cshell.Arith.Eval.is_resource
    cshell.Arith.Eval.probe_prefix cshell.Arith.Eval.settle cshell.Arith.Eval.evaluate_from
    cshell.Arith.Eval.eval
evaluations_test = (refl, refl, refl, refl)

decode_test :
    decode c_characters (codes "a\\x41\\101\\cA\\n") [] ≡ some (ok (97 ∷ 65 ∷ 65 ∷ 1 ∷ 10 ∷ []))
unfolding cshell.Prelude.Memory.allocate cshell.Prelude.Memory.allocations
    cshell.Character.character_length cshell.Quote.hexadecimal cshell.Quote.control
    cshell.Quote.octal cshell.Quote.digits cshell.Quote.doubled cshell.Quote.control_escape
    cshell.Quote.hex_escape cshell.Quote.octal_escape cshell.Quote.simple_escape cshell.Quote.escape
    cshell.Quote.finish cshell.Quote.backslash cshell.Quote.narrow cshell.Quote.step
    cshell.Quote.prepend cshell.Quote.decode_loop cshell.Quote.has_nul cshell.Quote.decode
decode_test = refl
