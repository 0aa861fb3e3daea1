-- ===== src/Transcript/Parser/Messages.antt =====
-- The events of user messages and of whole calls are made once, in
-- apps/system_interface/imbue/system_interface/session_parser.py.
use forever_claude_template.Base.{
  codes, ◌≡◌, refl, Bool, true, false, not, ◌&&◌, ◌||◌, inl, inr, Option, none, some, List, [],
  ◌++◌, arith, Bool-cases, Option-cases, in_names, Text, text_beq, code_eq,
}
use forever_claude_template.Transcript.Event.{Value, Items, Fields, null, object, text}
use forever_claude_template.Transcript.Lines.{strip}
use forever_claude_template.Transcript.Texts.{is_space, normalize_slash_command}
use forever_claude_template.Transcript.Parser.{Progress, make_event_id}
use forever_claude_template.Transcript.UserMessages.{
  user_event, interrupt_sentinel, parse_user_text, result_event, parse_tool_result,
  parse_tool_results, structured_agent_id_of, items_of, parse_user_message, queued_prompt,
  parse_queued_command_attachment,
}
use forever_claude_template.Transcript.Parser.Content.{
  Runtime, lookup, value_or, truthy, is_text, nonempty, as_text, is_hashable, has_tool_results_only,
  extract_text_content, result_text,
}
use forever_claude_template.Transcript.Parser.Seen.{Marks, emit-Marks}

either_false : (a b : Bool) → (a || b) ≡ false → b ≡ false
either_false a b h = ground (arith, h)

both_last : (a b : Bool) → (a && b) ≡ true → b ≡ true
both_last a b h = ground (arith, h)

not-true : (b : Bool) → not b ≡ true → b ≡ false
not-true b h = ground (arith, h)

module _ (rt : Runtime) (old : List Text) where
  parse_user_text-Marks :
      (raw : Fields) (content : Value) (uuid : Text) (timestamp : Value) (session_id : Option Text)
      (p : Progress)
      → Marks old p
      → Marks old (parse_user_text raw content uuid timestamp session_id p).0
  unfolding parse_user_text
  parse_user_text-Marks raw content uuid timestamp session_id p m =
      let event_id = make_event_id uuid (codes "user") in
      elim (Bool-cases (has_tool_results_only content || in_names event_id p.existing_event_ids)) [
        | inl e ↦ rw (parse_user_text, e) m
        | inr e ↦ elim (Option-cases (extract_text_content content)) [
          | inl o ↦ rw (parse_user_text, e, o) m
          | inr (plain, o) ↦
              let shown = normalize_slash_command plain in
              elim (Bool-cases
                (nonempty shown && not (text_beq (strip is_space shown) interrupt_sentinel))) [
                  | inr quiet ↦ rw (parse_user_text, e, o, quiet) m
                  | inl said ↦
                      rw (parse_user_text, e, o, said)
                        (emit-Marks old
                          (user_event event_id uuid timestamp session_id (record {
                            content = shown;
                            is_meta = truthy (value_or null (lookup (codes "isMeta") raw));
                          }))
                          p m
                          (either_false (has_tool_results_only content)
                            (in_names event_id p.existing_event_ids) e))
                ]
        ]
      ]

  tool_result-Marks :
      (block : Fields) (agent_id : Option Text) (uuid : Text) (timestamp : Value)
      (session_id : Option Text) (p : Progress)
      → Marks old p
      → Marks old (parse_tool_result rt (object block) agent_id uuid timestamp session_id p).0
  unfolding parse_tool_result result_event
  tool_result-Marks block agent_id uuid timestamp session_id p m =
      let id_value = value_or (text []) (lookup (codes "tool_use_id") block) in
      let tool_call_id = as_text rt id_value in
      let is_result = is_text (codes "tool_result") (value_or null (lookup (codes "type") block)) in
      let old_one =
        in_names (make_event_id uuid (codes "tool_result-" ++ tool_call_id)) p.existing_event_ids in
      elim (Bool-cases (is_result && truthy id_value && not old_one)) [
        | inr e ↦ rw (parse_tool_result, e) m
        | inl e ↦ elim (Bool-cases (is_hashable id_value)) [
          | inr d ↦ rw (parse_tool_result, e, d) m
          | inl d ↦
              elim (Option-cases
                (result_text rt (value_or (text []) (lookup (codes "content") block)))) [
                  | inl o ↦ rw (parse_tool_result, e, d, o) m
                  | inr (output, o) ↦
                      rw (parse_tool_result, e, d, o)
                        (emit-Marks old
                          (result_event block agent_id tool_call_id output uuid timestamp session_id
                            p.tool_name_by_call_id)
                          p m
                          (not-true old_one
                            (both_last (is_result && truthy id_value) (not old_one) e)))
                ]
        ]
      ]

  parse_tool_result-Marks :
      (block : Value) (agent_id : Option Text) (uuid : Text) (timestamp : Value)
      (session_id : Option Text) (p : Progress)
      → Marks old p
      → Marks old (parse_tool_result rt block agent_id uuid timestamp session_id p).0
  unfolding parse_tool_result
  parse_tool_result-Marks Value.null agent_id uuid timestamp session_id p m = m
  parse_tool_result-Marks (Value.boolean b) agent_id uuid timestamp session_id p m = m
  parse_tool_result-Marks (Value.number z d) agent_id uuid timestamp session_id p m = m
  parse_tool_result-Marks (Value.text t) agent_id uuid timestamp session_id p m = m
  parse_tool_result-Marks (Value.array items) agent_id uuid timestamp session_id p m = m
  parse_tool_result-Marks (Value.object block) agent_id uuid timestamp session_id p m =
      tool_result-Marks block agent_id uuid timestamp session_id p m

  parse_tool_results-Marks :
      (items : Items) (agent_id : Option Text) (uuid : Text) (timestamp : Value)
      (session_id : Option Text) (p : Progress)
      → Marks old p
      → Marks old (parse_tool_results rt items agent_id uuid timestamp session_id p).0
  unfolding parse_tool_results
  parse_tool_results-Marks Items.none_left agent_id uuid timestamp session_id p m = m
  parse_tool_results-Marks (Items.item block items) agent_id uuid timestamp session_id p m =
      let read = parse_tool_result rt block agent_id uuid timestamp session_id p in
      let read_marks = parse_tool_result-Marks block agent_id uuid timestamp session_id p m in
      elim (Bool-cases read.1) [
        | inl raised ↦ rw (parse_tool_results, raised) read_marks
        | inr fine ↦
            rw (parse_tool_results, fine)
              (parse_tool_results-Marks items agent_id uuid timestamp session_id read.0 read_marks)
      ]

  pub parse_user-Marks :
      (raw : Fields) (uuid : Text) (timestamp : Value) (session_id : Option Text) (p : Progress)
      → Marks old p
      → Marks old (parse_user_message rt raw uuid timestamp session_id p).0
  unfolding parse_user_message
  parse_user-Marks raw uuid timestamp session_id p m = go (lookup (codes "message") raw) refl
    where
      go :
          (o : Option Value)
          → lookup (codes "message") raw ≡ o
          → Marks old (parse_user_message rt raw uuid timestamp session_id p).0
      go none l = rw (parse_user_message, l) m
      go (some Value.null) l = rw (parse_user_message, l) m
      go (some (Value.boolean b)) l = rw (parse_user_message, l) m
      go (some (Value.number z d)) l = rw (parse_user_message, l) m
      go (some (Value.text t)) l = rw (parse_user_message, l) m
      go (some (Value.array items)) l = rw (parse_user_message, l) m
      go (some (Value.object message)) l =
          let content = value_or null (lookup (codes "content") message) in
          let said = parse_user_text raw content uuid timestamp session_id p in
          let said_marks = parse_user_text-Marks raw content uuid timestamp session_id p m in
          elim (Bool-cases said.1) [
            | inl raised ↦ rw (parse_user_message, l, raised) said_marks
            | inr fine ↦
                rw (parse_user_message, l, fine)
                  (parse_tool_results-Marks (items_of content) (structured_agent_id_of raw) uuid
                    timestamp session_id said.0 said_marks)
          ]

  pub parse_queued-Marks :
      (raw : Fields) (uuid : Text) (timestamp : Value) (session_id : Option Text) (p : Progress)
      → Marks old p
      → Marks old (parse_queued_command_attachment raw uuid timestamp session_id p)
  unfolding parse_queued_command_attachment
  parse_queued-Marks raw uuid timestamp session_id p m =
      let event_id = make_event_id uuid (codes "queued") in
      elim (Option-cases (queued_prompt raw)) [
        | inl o ↦ rw (parse_queued_command_attachment, o) m
        | inr (prompt, o) ↦ elim (Bool-cases (in_names event_id p.existing_event_ids)) [
          | inl e ↦ rw (parse_queued_command_attachment, o, e) m
          | inr e ↦
              rw (parse_queued_command_attachment, o, e)
                (emit-Marks old
                  (user_event event_id uuid timestamp session_id
                    (record { content = prompt; is_meta = false }))
                  p m e)
        ]
      ]
