-- ===== src/Filter.antt =====
-- internal/filter: the content filters. Go's regexp package is a parameter: `compile` is the test
-- that regexp.Compile accepts a pattern, `matches` the match of a compiled pattern, both for the
-- pattern behind "(?i)".
pub mod First
mod Examples
use xeron_mx.Prelude.{
  ℕ, Bool, true, false, not, ◌&&◌, ◌+◌, ◌++◌, ◌==◌, map, Option, none, some, List, [], ◌∷◌, ltb,
  if◌then◌else◌, length, is_empty, find,
}
use xeron_mx.Text.{Bytes, codes}
use xeron_mx.Unicode.{Unicode}
use xeron_mx.Store.Time.{Time}

pub data Field : Type 0 where
  from to subject other : Field

pub data Action : Type 0 where
  reject quarantine allow : Action

-- A row of the table filters; the list is in the order of ListFilters, by priority and then id.
pub record Rule : Type 0 where
  pub id : ℕ
  pub name : Bytes
  pub field : Field
  pub pattern : Bytes
  pub action : Action
  pub enabled : Bool
  pub match_count : ℕ
  pub last_match_at : Option Time

pub record Message : Type 0 where
  pub sender : Bytes
  pub recipients : List Bytes
  pub subject : Bytes

pub record Verdict : Type 0 where
  pub action : Action
  pub filter_id : ℕ
  pub name : Bytes
  pub field : Field
  pub matched : Bytes

abbrev pub is_reject : Action → Bool
is_reject reject = true
is_reject _ = false

abbrev pub is_quarantine : Action → Bool
is_quarantine quarantine = true
is_quarantine _ = false

abbrev field_text : Field → Bytes
field_text from = codes "from"
field_text to = codes "to"
field_text subject = codes "subject"
field_text other = []

-- Reason. `quote` is the verb %q of fmt.
unfoldable pub reason : (Bytes → Bytes) → Verdict → Bytes
reason quote v =
    if is_empty v.name
    then []
    else codes "matched filter "
      ++ (quote v.name ++ (codes " on " ++ (field_text v.field ++ (codes ": " ++ v.matched))))

-- RecordFilterMatch
unfoldable pub record_filter_match : ℕ → Time → List Rule → List Rule
record_filter_match k now = map λ (f : Rule).
    if f.id == k then record f { match_count = f.match_count + 1; last_match_at = some now } else f

abbrev pub max_pattern_length : ℕ
max_pattern_length = 500

pub record Regexp : Type 0 where
  pub compile : Bytes → Bool
  pub matches : Bytes → Bytes → Bool

module _ (u : Unicode) (r : Regexp) where
  unfoldable pub compiles : Bytes → Bool
  compiles pattern =
      not (is_empty (u.trim_space pattern))
      && (not (ltb max_pattern_length (length pattern)) && r.compile pattern)

  -- Load: the enabled rules whose pattern compiles.
  unfoldable pub load : List Rule → List Rule
  unfolding compiles
  load [] = []
  load (f ∷ rules) =
      let rest = load rules in if f.enabled && compiles f.pattern then f ∷ rest else rest

  abbrev match_text : Bytes → Bytes → Option Bytes
  match_text pattern text = if r.matches pattern text then some text else none

  match_field : Rule → Message → Field → Option Bytes
  unfolding find
  match_field f m from = match_text f.pattern m.sender
  match_field f m subject = match_text f.pattern m.subject
  match_field f m to = find (r.matches f.pattern) m.recipients
  match_field f m other = none

  unfoldable pub match : Rule → Message → Option Bytes
  unfolding match_field
  match f m = match_field f m f.field

  -- Evaluate: the first rule that matches decides.
  unfoldable pub evaluate : List Rule → Message → Option Verdict
  unfolding match
  evaluate [] m = none
  evaluate (f ∷ rules) m = elim (match f m) [
    | some matched ↦ some (record {
      action = f.action;
      filter_id = f.id;
      name = f.name;
      field = f.field;
      matched = matched;
    })
    | none ↦ evaluate rules m
  ]
