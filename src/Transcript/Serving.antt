-- ===== src/Transcript/Serving.antt =====
-- The watcher with its own parser, in apps/system_interface/imbue/system_interface.
use forever_claude_template.Base.{ℕ, Bool, Option, List, Text}
use forever_claude_template.Transcript.Lines.{Bytes}
use forever_claude_template.Transcript.Records.{parse_session_lines}
use forever_claude_template.Transcript.Parser.Content.{Runtime}
use forever_claude_template.Transcript.Refresh.Steps.{empty_watcher}
use forever_claude_template.Transcript.Refresh.Runs.{Step, run}
use forever_claude_template.Transcript.Watcher.{Watcher}

-- The watcher after a run that starts empty.
abbrev pub watched : Runtime → (List ℕ → Option Text) → (Bytes → Bool) → ℕ → List Step → Watcher
watched rt decode loads capacity steps =
    run decode loads (parse_session_lines rt) capacity steps empty_watcher
