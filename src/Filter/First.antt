-- ===== src/Filter/First.antt =====
-- Proofs about Evaluate of internal/filter/filter.go.
use xeron_mx.Prelude.{
  ◌≡◌, refl, ap, ◌⊎◌, inl, inr, none, some, List, [], ◌∷◌, ◌++◌, Option-cases, All,
}
use xeron_mx.Unicode.{Unicode}
use xeron_mx.Filter.{Rule, Message, Verdict, Regexp, match, evaluate}

module _ (u : Unicode) (r : Regexp) where
  -- The verdict v is that of a rule behind rules that do not match.
  pub record IsFirst (rules : List Rule) (m : Message) (v : Verdict) : Type 0 where
    pub before : List Rule
    pub decides : Rule
    pub after : List Rule
    pub order : rules ≡ before ++ decides ∷ after
    pub pass : All (λ f. match u r f m ≡ none) before
    pub hit : match u r decides m ≡ some v.matched
    pub action_of : v.action ≡ decides.action
    pub id_of : v.filter_id ≡ decides.id

  cons-IsFirst :
      (f : Rule) (rules : List Rule) (m : Message) (v : Verdict)
      → match u r f m ≡ none
      → IsFirst rules m v
      → IsFirst (f ∷ rules) m v
  cons-IsFirst f rules m v h first = record {
    before = f ∷ first.before;
    decides = first.decides;
    after = first.after;
    order = ap (λ rest. f ∷ rest) first.order;
    pass = (h, first.pass);
    hit = first.hit;
    action_of = first.action_of;
    id_of = first.id_of;
  }

  -- Either no rule matches the message and there is no verdict, or the verdict is that of a rule which
  -- matches and which every rule before it in the list lets pass.
  pub evaluate_lem :
      (rules : List Rule) (m : Message)
      → ((evaluate u r rules m ≡ none) × All (λ f. match u r f m ≡ none) rules)
        ⊎ ((v : Verdict) × (evaluate u r rules m ≡ some v) × IsFirst rules m v)
  unfolding evaluate
  evaluate_lem [] m = inl (refl, tt)
  evaluate_lem (f ∷ rules) m = elim (Option-cases (match u r f m)) [
    | inr (text, h) ↦
        let v : Verdict = record {
          action = f.action;
          filter_id = f.id;
          name = f.name;
          field = f.field;
          matched = text;
        } in
        inr (
          v,
          rw (h, evaluate) refl,
          record {
            before = [];
            decides = f;
            after = rules;
            order = refl;
            pass = tt;
            hit = h;
            action_of = refl;
            id_of = refl;
          },
        )
    | inl h ↦ elim (evaluate_lem rules m) [
      | inl (nothing, all) ↦ inl (rw (h, evaluate) nothing, (h, all))
      | inr (v, found, first) ↦ inr (v, rw (h, evaluate) found, cons-IsFirst f rules m v h first)
    ]
  ]
