-- ===== src/Tests/Fixtures.antt =====
-- A host with one changed file, a model that always gives the same answer, and the texts that the
-- review needs. The models' state counts their calls.
use auto_review.Prelude.{ℕ, suc, true, false, none, some, [], ◌∷◌, ok, err}
use auto_review.Prelude.Text.{Text, codes}
use auto_review.Llm.{Provider, Router, LlmState}
use auto_review.Forge.{ChangedFile}
use auto_review.Review.Types.{note, error, ReviewFinding, ReviewOutput}
use auto_review.Review.Host.{ReviewHost}
use auto_review.Review.Agentic.{Tools}
use auto_review.Review.Args.{simple, ReviewArgs, Parts, PrMetadataCheck}
use auto_review.Orchestrator.Dispatcher.{JobParts, JobState}
use auto_review.Orchestrator.Jobs.{ReviewJob}

abbrev pub finding : ReviewFinding
finding = record {
  path = codes "a.rs";
  line_start = 3;
  line_end = none;
  severity = error;
  message = codes "off by one";
}

abbrev pub output : ReviewOutput
output = record { summary = codes "s"; findings = finding ∷ []; walkthrough = []; mermaid = [] }

abbrev pub changed_file : ChangedFile
changed_file = record {
  filename = codes "a.rs";
  status = codes "modified";
  additions = 1;
  deletions = 0;
  changes = 1;
  patch = none;
}

abbrev pub diff : Text
diff = codes "diff --git a/a.rs b/a.rs\n+x\n"

abbrev pub host : ReviewHost ℕ
host = record {
  get_pr_diff = λ pr h. (h, ok diff);
  list_changed_files = λ pr h. (h, ok (changed_file ∷ []));
  list_pr_review_comments = λ pr h. (h, ok []);
  list_pull_reviews = λ pr h. (h, ok []);
  list_pull_review_comments = λ pr id h. (h, ok []);
  update_pull_request = λ pr title body h. (h, ok tt);
  create_review = λ pr req h. (h, ok (record { id = 1; state = codes "APPROVED" }));
}

abbrev pub model : Provider ℕ
model = record {
  complete =
      λ req n. (suc n, ok (record { content = codes "{}"; input_tokens = 1; output_tokens = 1 }));
  provider_base_url = codes "http://localhost";
  model_name = λ tier. codes "m";
}

abbrev pub router : Router ℕ
router tier = some model

abbrev pub start : LlmState ℕ
start = record { world = 0; usage = [] }

abbrev pub parts : Parts
parts = record {
  system_prompt = codes "system";
  render_review_prompt = λ args d files discussion. d;
  validate_review_output = λ content. ok output;
  verification_system_prompt = codes "verify";
  validate_verification_output = λ content. err (codes "no verdicts");
  agent_system_prompt = codes "agent";
  parse_action = λ content. none;
  metadata_request =
      λ title body rules. record { system = none; messages = []; json_schema = none };
  parse_metadata = λ content. none;
  should_emit_cost_footer = false;
  append_llm_usage_cost_footer = λ body usage. body;
}

abbrev pub metadata_check : PrMetadataCheck
metadata_check = record { enabled = true; body_required = false; additional_rules = [] }

abbrev pub args : ReviewArgs
args = record {
  pr = record { owner = codes "o"; repo = codes "r"; pr_number = 7 };
  head_sha = codes "abc";
  pr_title = codes "fix: bounds";
  pr_body = [];
  ignored_paths = record { no_globs = true; is_match = λ p. false };
  guidelines = [];
  repo_context = [];
  diff_override = none;
  previous_review_sha = none;
  verify_mode = simple;
  workspace = none;
  min_severity = note;
  pr_metadata_check = metadata_check;
}

abbrev pub tools : Tools
tools = record {
  read_file = λ path from to cap. err (codes "no such file");
  search = λ pattern path cap. ok [];
}

abbrev pub job_parts : JobParts ℕ ℕ
job_parts = record {
  get_compare_diff = λ job sha h. (h, ok diff);
  post_commit_status = λ job status h. (suc h, ok tt);
  prepare_workspace_context = λ job h w. (h, w, err (codes "clone failed"));
  default_metadata_check = metadata_check;
  agentic_verifier = none;
  severity_floor = some (codes "note");
  error_text = λ e. codes "failed";
}

abbrev pub job : ReviewJob
job = record {
  owner = codes "o";
  repo = codes "r";
  pr_number = 7;
  head_sha = codes "abc";
  pr_title = codes "fix: bounds";
  pr_body = [];
  force = false;
}

abbrev pub idle : JobState ℕ ℕ
idle = record { host_state = 0; world = 0; history = []; statuses = []; observations = [] }
