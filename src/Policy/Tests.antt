-- ===== src/Policy/Tests.antt =====
-- A pack of two rules, and a match with a pattern.
use witseal.Prelude.{◌≡◌, ◌↔◌, refl, not, true, ok, [], ◌∷◌, List, none, some}
use witseal.Prelude.Text.{Text, codes, starts_with}
use witseal.Schema.Policy.{
  FieldMatch, RuleMatch, rule_match, unset, set, unset_list, Decision, allow, deny,
  require_approval, PolicyRule,
}
use witseal.Schema.Witness.Samples.{list_files}
use witseal.Policy.{
  RegExps, MatchFn, CompiledPack, compile_match, field_matchers, all_matchers, test_command,
  evaluate,
}
use witseal.Policy.Spec.{Meets}
use witseal.Policy.Matching.{compile_match-Meets}
use witseal.Policy.Deciding.{IsOf, Lists, first_match, evaluate-first_match}

-- Patterns that a text starts with.
abbrev prefixes : RegExps
prefixes source = ok λ t. starts_with t source

abbrev command_pattern : FieldMatch
command_pattern = record {
  action_type = none;
  risk_class = none;
  risk_class_in = none;
  executable_matches = none;
  command_matches = some (codes "ls");
  path_matches = none;
}

abbrev no_fields : FieldMatch
no_fields = record command_pattern { command_matches = none }

abbrev fields_alone : FieldMatch → RuleMatch
fields_alone m = rule_match m unset_list unset_list unset

abbrev not_ls : RuleMatch
not_ls = rule_match no_fields unset_list unset_list (set (fields_alone command_pattern))

abbrev not_ls_fn : MatchFn
not_ls_fn i =
    not (
      all_matchers prefixes ((λ j. test_command (λ t. starts_with t (codes "ls")) j.intent) ∷ []) i)

not_ls-compiles : compile_match prefixes not_ls ≡ ok not_ls_fn
unfolding compile_match field_matchers
not_ls-compiles = refl

compile_match-Meets_example : (not_ls_fn list_files ≡ true) ↔ Meets prefixes not_ls list_files
compile_match-Meets_example =
    compile_match-Meets prefixes not_ls not_ls_fn list_files not_ls-compiles

abbrev rule_of : Text → Decision → RuleMatch → PolicyRule
rule_of id d m = record { id = id; match = m; decision = d; reason = codes "why" }

abbrev pack_of : Decision → CompiledPack
pack_of d = record {
  pack = record {
    pack_id = codes "p";
    version = codes "1";
    description = codes "two rules";
    rules = rule_of (codes "a") deny not_ls ∷ [];
    default_decision = d;
  };
  content_hash = codes "h";
  rules = record { rule = rule_of (codes "a") deny not_ls; match_fn = not_ls_fn } ∷ [];
}

abbrev two_packs : List CompiledPack
two_packs = pack_of allow ∷ pack_of require_approval ∷ []

evaluate-first_match_example :
    IsOf two_packs (first_match two_packs list_files) (evaluate two_packs list_files)
    × Lists (evaluate two_packs list_files).active_pack_hashes two_packs
evaluate-first_match_example = evaluate-first_match two_packs list_files
