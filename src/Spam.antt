-- ===== src/Spam.antt =====
-- internal/spam: what the checker makes of rspamd's answer. The answer itself, an HTTP response, is
-- an input; a score is the bits of its float64.
use xeron_mx.Text.{Bytes, codes}
use xeron_mx.Prelude.{ℕ, Bool, true, false, not, ◌&&◌, ltb, if◌then◌else◌}

-- The actions that the code names, and any other text that rspamd may send.
pub data Action : Type 0 where
  no_action greylist add_header rewrite_subject soft_reject reject : Action
  other : Bytes → Action

pub record Verdict : Type 0 where
  pub action : Action
  pub score : ℕ
  pub skipped : Bool

abbrev pub action_text : Action → Bytes
action_text no_action = codes "no action"
action_text greylist = codes "greylist"
action_text add_header = codes "add header"
action_text rewrite_subject = codes "rewrite subject"
action_text soft_reject = codes "soft reject"
action_text reject = codes "reject"
action_text (other s) = s

abbrev pub rejects : Action → Bool
rejects reject = true
rejects _ = false

abbrev pub defers : Action → Bool
defers soft_reject = true
defers greylist = true
defers _ = false

pub record Config : Type 0 where
  pub enabled : Bool
  pub max_size_bytes : ℕ
  pub reject_enabled : Bool
  pub defer_enabled : Bool

-- The outcome of the request. In `answer` the action is the text in lower case without the spaces
-- around it, an empty one read as "no action".
pub data Response : Type 0 where
  unreachable : Response
  status : ℕ → Response
  unparsable : Response
  answer : Action → ℕ → Bool → Response

abbrev pub skipped : Verdict
skipped = record { action = no_action; score = 0; skipped = true }

abbrev is_no_action : Action → Bool
is_no_action no_action = true
is_no_action _ = false

-- A rejection that is not enabled only marks the message.
abbrev softened : Bool → Action → Action
softened reject_enabled reject = if reject_enabled then reject else add_header
softened reject_enabled a = a

abbrev pub read_answer : Config → Action → ℕ → Bool → Verdict
read_answer cfg a score is_skipped =
    if is_skipped && is_no_action a
    then skipped
    else record { action = softened cfg.reject_enabled a; score = score; skipped = false }

unfoldable pub check : Config → ℕ → Response → Verdict
check cfg size response =
    if not cfg.enabled
    then skipped
    else if ltb 0 cfg.max_size_bytes && ltb cfg.max_size_bytes size
    then skipped
    else elim response [
      | unreachable ↦ skipped
      | status code ↦ skipped
      | unparsable ↦ skipped
      | answer a score is_skipped ↦ read_answer cfg a score is_skipped
    ]
