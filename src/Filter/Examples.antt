-- ===== src/Filter/Examples.antt =====
-- Three content rules, the first of them off: which one decides.
use xeron_mx.Prelude.{ℕ, ◌≡◌, refl, ◌⊎◌, Bool, true, false, none, some, List, [], ◌∷◌, All}
use xeron_mx.Text.{codes, bytes_eq}
use xeron_mx.Unicode.{ascii}
use xeron_mx.Filter.{
  Field, from, subject, Action, reject, quarantine, allow, Rule, Message, Verdict, Regexp, load,
  evaluate, match,
}
use xeron_mx.Filter.First.{IsFirst, evaluate_lem}

-- A pattern matches the text that it writes.
abbrev literal : Regexp
literal = record { compile = λ p. true; matches = bytes_eq }

abbrev rule : ℕ → Field → Action → Bool → Rule
rule k field action on = record {
  id = k;
  name = codes "rule";
  field = field;
  pattern = codes "spam";
  action = action;
  enabled = on;
  match_count = 0;
  last_match_at = none;
}

abbrev rules : List Rule
rules = rule 1 subject allow false ∷ rule 2 from reject true ∷ rule 3 subject quarantine true ∷ []

abbrev offer : Message
offer = record { sender = codes "x@y.org"; recipients = []; subject = codes "spam" }

load_test : load ascii literal rules ≡ rule 2 from reject true ∷ rule 3 subject quarantine true ∷ []
unfolding load ascii
load_test = refl

evaluate_lem_example :
    ((evaluate ascii literal rules offer ≡ none)
      × All (λ f. match ascii literal f offer ≡ none) rules)
    ⊎ ((v : Verdict) × (evaluate ascii literal rules offer ≡ some v)
        × IsFirst ascii literal rules offer v)
evaluate_lem_example = evaluate_lem ascii literal rules offer
