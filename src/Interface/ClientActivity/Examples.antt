-- ===== src/Interface/ClientActivity/Examples.antt =====
-- A concrete log of client activity.
use forever_claude_template.Base.{
  ◌≡◌, refl, none, some, if◌then◌else◌, str_eq, List, [], get, text_eq, codes,
}
use forever_claude_template.Interface.ClientActivity.{
  LogEvent, append_message_event, append_layout_switch_event, append_client_connected_event,
  fold_events, find_client_id_for_agent,
}
use forever_claude_template.Interface.ClientActivity.Summaries.{
  expected, of_client, fold_events-summary_of,
}
use forever_claude_template.Interface.ClientActivity.Attribution.{
  last_sender, find_client_id_for_agent-last,
}

-- Client `c` connects, messages agent `a`, and changes its layout.
abbrev sample_log : List LogEvent
unfolding append_message_event append_layout_switch_event append_client_connected_event
sample_log = append_layout_switch_event (codes "3") "c" "desktop" "wide" (
    append_message_event (codes "2") "c" "desktop" "main" "a" "ann" (codes "hi")
      (append_client_connected_event (codes "1") "c" "desktop" "main" []))

fold_events-summary_of_example :
    get (fold_events sample_log []) "c" ≡ expected "c" (of_client "c" sample_log)
fold_events-summary_of_example = fold_events-summary_of "c" sample_log refl

asked_by : find_client_id_for_agent sample_log "a" ≡ some "c"
unfolding find_client_id_for_agent sample_log
asked_by = refl

find_client_id_for_agent-last_example :
    find_client_id_for_agent sample_log "a"
    ≡ (if str_eq "a" "" then none else last_sender "a" none sample_log)
find_client_id_for_agent-last_example = find_client_id_for_agent-last sample_log "a"
