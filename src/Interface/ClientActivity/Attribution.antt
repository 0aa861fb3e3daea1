-- ===== src/Interface/ClientActivity/Attribution.antt =====
-- Which client an agent's request is attributed to, in
-- apps/system_interface/imbue/system_interface/client_activity.py.
use forever_claude_template.Base.{
  String, ◌≡◌, refl, ◌∙◌, ◌&&◌, Option, none, some, List, [], ◌∷◌, ◌++◌, arith, if◌then◌else◌,
  str_eq,
}
use forever_claude_template.Interface.ClientActivity.{
  LogEvent, is_message_to, first_sender, reversed_events, find_client_id_for_agent, named,
}

-- The client of the last message to an agent, read from the oldest event on; `sender` is that of the
-- events before. A message that names no client leaves none.
abbrev pub last_sender : String → Option String → List LogEvent → Option String
last_sender agent_id sender [] = sender
last_sender agent_id sender (e ∷ events) =
    last_sender agent_id
      (if str_eq e.type "message" && str_eq e.agent_id agent_id
        then (if str_eq e.client_id "" then none else some e.client_id)
        else sender)
      events

-- The walk that comes to `sender` at its end.
abbrev sender_or : String → Option String → List LogEvent → Option String
sender_or agent_id sender [] = sender
sender_or agent_id sender (e ∷ events) =
    if is_message_to agent_id e then named e.client_id else sender_or agent_id sender events

first_sender-or :
    (a : String) (events : List LogEvent) → first_sender a events ≡ sender_or a none events
unfolding first_sender
first_sender-or a [] = refl
first_sender-or a (e ∷ events) = ground (arith, first_sender-or a events)

sender_or-snoc :
    (a : String) (sender : Option String) (events : List LogEvent) (e : LogEvent)
    → sender_or a sender (events ++ e ∷ [])
      ≡ sender_or a (if is_message_to a e then named e.client_id else sender) events
sender_or-snoc a sender [] e = refl
sender_or-snoc a sender (d ∷ events) e = cc (sender_or-snoc a sender events e)

sender_or-reversed :
    (a : String) (sender : Option String) (events : List LogEvent)
    → sender_or a sender (reversed_events events) ≡ last_sender a sender events
unfolding reversed_events
sender_or-reversed a sender [] = refl
sender_or-reversed a sender (e ∷ events) =
    sender_or-snoc a sender (reversed_events events) e
    ∙ sender_or-reversed a (if is_message_to a e then named e.client_id else sender) events

-- An agent's request is attributed to the client of the last message to the agent in the log, and to
-- nobody where that message names no client, no message to the agent is there, or the agent has no id.
pub find_client_id_for_agent-last :
    (events : List LogEvent) (agent_id : String)
    → find_client_id_for_agent events agent_id
      ≡ (if str_eq agent_id "" then none else last_sender agent_id none events)
unfolding find_client_id_for_agent
find_client_id_for_agent-last events agent_id = ground (
  arith,
  first_sender-or agent_id (reversed_events events),
  sender_or-reversed agent_id none events,
)
