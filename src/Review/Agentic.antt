-- ===== src/Review/Agentic.antt =====
-- crates/ar-review/src/agentic_verify.rs: the second opinion, finding by finding, with tools.
-- The tools read a cloned workspace: `Tools` is the file system they see. The parsing of an action
-- is serde's.
use auto_review.Prelude.{
  ℕ, zero, suc, ◌+◌, Bool, true, false, not, ◌||◌, Option, none, some, List, [], ◌∷◌, ◌++◌, Result,
  ok, err, if◌then◌else◌, is_empty, length,
}
use auto_review.Prelude.Text.{Text, codes, text_eq, ends_with}
use auto_review.Prelude.Search.{show_nat}
use auto_review.Llm.{
  cheap, Message, user_message, assistant_message, CompleteRequest, LlmState, Router, complete,
  has_provider,
}
use auto_review.Review.Types.{ReviewFinding, ReviewOutput}
use auto_review.Review.Diff.{cap_for_prompt, cheap_tier_diff_cap}
use auto_review.Review.Verify.{show_severity, fenced_diff}
use auto_review.Review.WorkspaceTools.{ReadResult, SearchHit}
pub mod FailOpen

abbrev pub default_max_turns : ℕ
default_max_turns = 5

abbrev pub read_file_max_bytes : ℕ
read_file_max_bytes = 4096

abbrev pub search_max_hits : ℕ
search_max_hits = 64

pub record AgentAction : Type 0 where
  pub tool : Text
  pub path : Option Text
  pub pattern : Option Text
  pub start_line : Option ℕ
  pub end_line : Option ℕ
  pub keep : Option Bool

pub data Verdict : Type 0 where
  keep drop : Verdict

-- The two tools, an error given by its message.
pub record Tools : Type 0 where
  pub read_file : Text → Option ℕ → Option ℕ → ℕ → Result Text ReadResult
  pub search : Text → Option Text → ℕ → Result Text (List SearchHit)

unfoldable pub initial_user_prompt : ReviewFinding → Text → Text
initial_user_prompt finding diff =
    codes "Finding to verify:\n  path: "
    ++ finding.path
    ++ codes "\n  line_start: "
    ++ show_nat finding.line_start
    ++ codes "\n  severity: "
    ++ show_severity finding.severity
    ++ codes "\n  message: "
    ++ finding.message
    ++ codes "\n"
    ++ fenced_diff
        (cap_for_prompt diff cheap_tier_diff_cap (codes "[diff truncated for agentic verifier]"))
    ++ codes "Issue your first tool call now.\n"

unfoldable pub format_read : Text → Result Text ReadResult → Text
format_read p (err e) = codes "read_file(" ++ p ++ codes ") error: " ++ e
format_read p (ok r) =
    let s =
      codes "read_file("
      ++ p
      ++ codes ") [lines "
      ++ show_nat r.start_line
      ++ codes "-"
      ++ show_nat r.end_line
      ++ (if r.truncated then codes ", truncated" else [])
      ++ codes "]:\n```\n"
      ++ r.content in
    s ++ (if ends_with (codes "\n") s then [] else codes "\n") ++ codes "```"

-- `read_file`, with the formatting of its result; without a path it is not run.
unfoldable pub run_read : Tools → AgentAction → Text
run_read tools a = elim a.path [
  | none ↦ codes "Tool error: read_file requires a 'path' argument."
  | some p ↦ format_read p (tools.read_file p a.start_line a.end_line read_file_max_bytes)
]

unfoldable pub hit_lines : List SearchHit → Text
hit_lines [] = []
hit_lines (h ∷ hs) =
    codes "  "
    ++ h.path
    ++ codes ":"
    ++ show_nat h.line
    ++ codes ": "
    ++ h.line_text
    ++ codes "\n"
    ++ hit_lines hs

unfoldable pub format_search : Text → Text → Result Text (List SearchHit) → Text
format_search pattern path_label result =
    codes "search(/" ++ pattern ++ codes "/, " ++ path_label ++ codes ")" ++ elim result [
      | err e ↦ codes " error: " ++ e
      | ok hits ↦
          if is_empty hits
          then codes ": no matches."
          else codes ": " ++ show_nat (length hits) ++ codes " match(es).\n" ++ hit_lines hits
    ]

unfoldable pub path_label : Option Text → Text
path_label none = codes "<workspace>"
path_label (some p) = p

unfoldable pub run_search : Tools → AgentAction → Text
run_search tools a = elim a.pattern [
  | none ↦ codes "Tool error: search requires a 'pattern' argument."
  | some pattern ↦
      format_search pattern (path_label a.path) (tools.search pattern a.path search_max_hits)
]

unfoldable pub verdict_of : Option Bool → Verdict
verdict_of none = keep
verdict_of (some true) = keep
verdict_of (some false) = drop

-- What one turn comes to: the verdict, or the message that answers the action.
unfoldable pub act : Tools → AgentAction → Result Verdict Text
act tools a =
    if text_eq a.tool (codes "verdict")
    then err (verdict_of a.keep)
    else if text_eq a.tool (codes "read_file")
    then ok (run_read tools a)
    else if text_eq a.tool (codes "search")
    then ok (run_search tools a)
    else err keep

module _ {W : Type 0} (router : Router W) (parse_action : Text → Option AgentAction)
    (system_prompt : Text) (tools : Tools) where
  unfoldable pub agent_request : List Message → CompleteRequest
  agent_request messages = record {
    system = some system_prompt;
    messages = messages;
    json_schema = some (codes "AgentAction");
  }

  -- The loop over the turns that are left.
  unfoldable pub verify_turns : ℕ → List Message → LlmState W → LlmState W × Verdict
  verify_turns zero messages s = (s, keep)
  verify_turns (suc n) messages s =
      let (s', answer) = complete router cheap (agent_request messages) s in
      elim answer [
        | err e ↦ (s', keep)
        | ok resp ↦ elim (parse_action resp.content) [
          | none ↦ (s', keep)
          | some action ↦ elim (act tools action) [
            | err verdict ↦ (s', verdict)
            | ok reply ↦
                verify_turns n
                  (messages ++ assistant_message resp.content ∷ user_message reply ∷ []) s'
          ]
        ]
      ]

  unfoldable pub verify_one : ReviewFinding → Text → ℕ → LlmState W → LlmState W × Verdict
  verify_one finding diff max_turns =
      verify_turns max_turns (user_message (initial_user_prompt finding diff) ∷ [])

  unfoldable pub verify_each :
      Text → List ReviewFinding → LlmState W → LlmState W × List ReviewFinding
  verify_each diff [] s = (s, [])
  verify_each diff (f ∷ fs) s =
      let (s', verdict) = verify_one f diff default_max_turns s in
      let (s'', kept) = verify_each diff fs s' in
      elim verdict [ keep ↦ (s'', f ∷ kept) | drop ↦ (s'', kept) ]

  unfoldable pub verify_findings_agentic :
      ReviewOutput → Text → LlmState W → LlmState W × ReviewOutput
  verify_findings_agentic output diff s =
      if not (has_provider router cheap) || is_empty output.findings
      then (s, output)
      else let (s', kept) = verify_each diff output.findings s in
        (s', record output { findings = kept })
