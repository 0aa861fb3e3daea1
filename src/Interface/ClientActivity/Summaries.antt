-- ===== src/Interface/ClientActivity/Summaries.antt =====
-- What a client's summary says of the log, in
-- apps/system_interface/imbue/system_interface/client_activity.py.
use forever_claude_template.Base.{
  ℕ, zero, suc, ◌≤◌, ◌+◌, ◌-◌, ◌≡◌, refl, sym, ap, ◌∙◌, String, Bool, true, false, inl, inr, ◌||◌,
  Option, none, some, is_some, List, [], ◌∷◌, ◌++◌, length, drop, arith, Bool-cases, if◌then◌else◌,
  str_eq, eq_iff, Dict, get, put, get-put, text_eq, Text, append_assoc, append_nil, length-drop,
}
use forever_claude_template.Interface.ClientActivity.{
  LogEvent, RecentMessage, Summary, event_layout_slug, unseen, keep_last, with_message, or_else,
  note_event, summary_or_unseen, fold_events, is_message_to, first_sender, reversed_events,
  find_client_id_for_agent, named, recent_messages_per_client,
}
use forever_claude_template.Transcript.Paging.Windows.{last, last-append, drop_all}

-- The events of one client.
abbrev pub of_client : String → List LogEvent → List LogEvent
of_client c [] = []
of_client c (e ∷ events) =
    let rest = of_client c events in if str_eq e.client_id c then e ∷ rest else rest

abbrev pub messages_of : List LogEvent → List RecentMessage
messages_of [] = []
messages_of (e ∷ events) =
    let rest = messages_of events in
    if str_eq e.type "message"
    then record { timestamp = e.timestamp; agent_name = e.agent_name; shown = e.message_text }
      ∷ rest
    else rest

-- The last layout that the events name, or else the given one.
abbrev pub last_layout : Option String → List LogEvent → Option String
last_layout o [] = o
last_layout o (e ∷ events) = last_layout (or_else (event_layout_slug e) o) events

abbrev pub last_device : String → List LogEvent → String
last_device kind [] = kind
last_device kind (e ∷ events) =
    last_device (if str_eq e.device_kind "" then kind else e.device_kind) events

abbrev pub last_time : Text → List LogEvent → Text
last_time t [] = t
last_time t (e ∷ events) = last_time e.timestamp events

-- What a log says of a client that it mentions.
abbrev pub summary_of : String → List LogEvent → Summary
summary_of c events = record {
  client_id = c;
  device_kind = last_device "" events;
  current_layout = last_layout none events;
  last_seen = last_time [] events;
  is_connected = false;
  recent_messages = last recent_messages_per_client (messages_of events);
}

abbrev fold_one : Summary → List LogEvent → Summary
fold_one s [] = s
fold_one s (e ∷ events) = fold_one (note_event e s) events

abbrev fold_client : String → Option Summary → List LogEvent → Option Summary
fold_client c o [] = o
fold_client c o (e ∷ events) = some (fold_one (note_event e (summary_or_unseen c o)) events)

fold_client_step :
    (c : String) (o : Option Summary) (e : LogEvent) (events : List LogEvent)
    → fold_client c (some (note_event e (summary_or_unseen c o))) events
      ≡ some (fold_one (note_event e (summary_or_unseen c o)) events)
fold_client_step c o e [] = refl
fold_client_step c o e (f ∷ events) = refl

fold_events-get :
    (c : String) (events : List LogEvent) (m : Dict String Summary)
    → str_eq c "" ≡ false
    → get (fold_events events m) c ≡ fold_client c (get m c) (of_client c events)
unfolding fold_events
fold_events-get c [] m h = refl
fold_events-get c (e ∷ events) m h =
    let noted = note_event e (summary_or_unseen e.client_id (get m e.client_id)) in
    elim (Bool-cases (str_eq e.client_id "")) [
      | inl blank ↦
          let other : str_eq e.client_id c ≡ false =
            ground (arith, blank, h, eq_iff e.client_id c, eq_iff e.client_id "", eq_iff c "") in
          rw (fold_events, blank, other) (fold_events-get c events m h)
      | inr known ↦
          let rest = fold_events-get c events (put m e.client_id noted) h in
          elim (Bool-cases (str_eq e.client_id c)) [
            | inl own ↦
                let same : e.client_id ≡ c = (eq_iff e.client_id c).0 own in
                let here : get (put m e.client_id noted) c ≡ some noted =
                  rw (get-put m e.client_id c noted, own) refl in
                rw (fold_events, known, own, rest, here, same)
                  (fold_client_step c (get m c) e (of_client c events))
            | inr other ↦
                let there : get (put m e.client_id noted) c ≡ get m c =
                  rw (get-put m e.client_id c noted, other) refl in
                rw (fold_events, known, other, rest, there) refl
          ]
    ]

module _ {ℓ} {A : Type ℓ} where
  drop-drop : (m n : ℕ) (xs : List A) → drop m (drop n xs) ≡ drop (m + n) xs
  drop-drop m zero xs = let same : m + 0 ≡ m = omega arith in rw same refl
  drop-drop m (suc n) [] = drop_empty m
    where
      drop_empty : (m : ℕ) → drop {A = A} m [] ≡ drop (m + suc n) []
      drop_empty m = drop_all m [] (omega arith) ∙ sym (drop_all (m + suc n) [] (omega arith))
  drop-drop m (suc n) (x ∷ xs) =
      let more : m + suc n ≡ suc (m + n) = omega arith in rw more (drop-drop m n xs)

  last-last : (m n : ℕ) (xs : List A) → m ≤ n → last m (last n xs) ≡ last m xs
  unfolding last
  last-last m n xs h =
      let kept : length (drop (length xs - n) xs) - m + (length xs - n) ≡ length xs - m =
        omega (arith, length-drop (length xs - n) xs, h) in
      drop-drop (length (drop (length xs - n) xs) - m) (length xs - n) xs ∙ ap (λ k. drop k xs) kept

  last_snoc : (n : ℕ) (xs : List A) (x : A) → last n (last n xs ++ x ∷ []) ≡ last n (xs ++ x ∷ [])
  last_snoc n xs x =
      let fewer : n - 1 ≤ n = omega arith in
      last-append n (last n xs) (x ∷ [])
      ∙ ap (λ ys. ys ++ last n (x ∷ [])) (last-last (n - 1) n xs fewer)
      ∙ sym (last-append n xs (x ∷ []))

last_of_none : (n : ℕ) → last {A = RecentMessage} n [] ≡ []
unfolding last
last_of_none n = drop_all (0 - n) [] (omega arith)

keep_last_lem :
    (messages : List RecentMessage) → keep_last messages ≡ last recent_messages_per_client messages
unfolding last
keep_last_lem messages = refl

with_message_lem :
    (e : LogEvent) (ms : List RecentMessage)
    → with_message e (last recent_messages_per_client ms)
      ≡ last recent_messages_per_client (ms ++ messages_of (e ∷ []))
unfolding with_message
with_message_lem e ms = elim (Bool-cases (str_eq e.type "message")) [
  | inl said ↦
      let message : RecentMessage = record {
        timestamp = e.timestamp;
        agent_name = e.agent_name;
        shown = e.message_text;
      } in
      rw (with_message, said)
        (keep_last_lem (last recent_messages_per_client ms ++ message ∷ [])
          ∙ last_snoc recent_messages_per_client ms message)
  | inr quiet ↦ rw (with_message, quiet, append_nil ms) refl
]

messages_of-cons :
    (e : LogEvent) (events : List LogEvent)
    → messages_of (e ∷ events) ≡ messages_of (e ∷ []) ++ messages_of events
messages_of-cons e events = elim (Bool-cases (str_eq e.type "message")) [
  | inl said ↦ rw (messages_of, said) refl
  | inr quiet ↦ rw (messages_of, quiet) refl
]

fold_one_lem :
    (s : Summary) (ms : List RecentMessage) (events : List LogEvent)
    → s.recent_messages ≡ last recent_messages_per_client ms
    → fold_one s events ≡ record {
      client_id = s.client_id;
      device_kind = last_device s.device_kind events;
      current_layout = last_layout s.current_layout events;
      last_seen = last_time s.last_seen events;
      is_connected = s.is_connected;
      recent_messages = last recent_messages_per_client (ms ++ messages_of events);
    }
unfolding note_event
fold_one_lem s ms [] h = rw (append_nil ms, ← h) refl
fold_one_lem s ms (e ∷ events) h =
    let noted : (note_event e s).recent_messages
        ≡ last recent_messages_per_client (ms ++ messages_of (e ∷ [])) =
      ap (with_message e) h ∙ with_message_lem e ms in
    let all : (ms ++ messages_of (e ∷ [])) ++ messages_of events ≡ ms ++ messages_of (e ∷ events) =
      append_assoc ms (messages_of (e ∷ [])) (messages_of events)
      ∙ ap (λ xs. ms ++ xs) (sym (messages_of-cons e events)) in
    fold_one_lem (note_event e s) (ms ++ messages_of (e ∷ [])) events noted
    ∙ ap
        (λ xs. record {
          client_id = s.client_id;
          device_kind = last_device s.device_kind (e ∷ events);
          current_layout = last_layout s.current_layout (e ∷ events);
          last_seen = last_time s.last_seen (e ∷ events);
          is_connected = s.is_connected;
          recent_messages = last recent_messages_per_client xs;
        })
        all

-- None for a client that no event names.
abbrev pub expected : String → List LogEvent → Option Summary
expected c [] = none
expected c (e ∷ events) = some (summary_of c (e ∷ events))

expected_lem : (c : String) (events : List LogEvent) → fold_client c none events ≡ expected c events
expected_lem c [] = refl
expected_lem c (e ∷ events) =
    ap some
      (fold_one_lem (unseen c) [] (e ∷ events) (sym (last_of_none recent_messages_per_client)))

-- The summary of a client, in the fold of the log, is empty where no event names the client, and else
-- has the time of its last event, the last device kind and layout that its events give, and its last
-- five messages, oldest first.
pub fold_events-summary_of :
    (c : String) (events : List LogEvent)
    → str_eq c "" ≡ false
    → get (fold_events events []) c ≡ expected c (of_client c events)
unfolding get
fold_events-summary_of c events h =
    fold_events-get c events [] h ∙ expected_lem c (of_client c events)

mentions : String → List LogEvent → Bool
mentions c [] = false
mentions c (e ∷ events) = str_eq e.client_id c || mentions c events

mentions-append :
    (c : String) (xs ys : List LogEvent) → mentions c (xs ++ ys) ≡ (mentions c xs || mentions c ys)
unfolding mentions
mentions-append c [] ys = refl
mentions-append c (e ∷ xs) ys = ground (arith, mentions-append c xs ys)

mentions-reversed :
    (c : String) (events : List LogEvent) → mentions c (reversed_events events) ≡ mentions c events
unfolding mentions reversed_events
mentions-reversed c [] = refl
mentions-reversed c (e ∷ events) =
    ground (arith, mentions-append c (reversed_events events) (e ∷ []), mentions-reversed c events)

named_lem : (slug c : String) → named slug ≡ some c → (slug ≡ c) × (str_eq slug "" ≡ false)
named_lem slug c h = elim (Bool-cases (str_eq slug "")) [
  | inl e ↦ let bad : false ≡ true = ground (arith, h, e) in cc
  | inr e ↦ (ground (arith, h, e), e)
]

sender_lem :
    (agent_id c : String) (events : List LogEvent)
    → first_sender agent_id events ≡ some c
    → (str_eq c "" ≡ false) × (mentions c events ≡ true)
unfolding first_sender mentions
sender_lem agent_id c [] h = let bad : false ≡ true = ground (arith, h) in cc
sender_lem agent_id c (e ∷ events) h = elim (Bool-cases (is_message_to agent_id e)) [
  | inl to ↦
      let sent : named e.client_id ≡ some c = ground (arith, h, to) in
      let own = named_lem e.client_id c sent in
      (rw (← own.0) own.1, ground (arith, own.0, eq_iff e.client_id c))
  | inr other ↦
      let rest = sender_lem agent_id c events (ground (arith, h, other)) in
      (rest.0, ground (arith, rest.1))
]

mentions-expected :
    (c : String) (events : List LogEvent)
    → mentions c events ≡ true
    → is_some (expected c (of_client c events)) ≡ true
unfolding mentions
mentions-expected c [] h = ground (arith, h)
mentions-expected c (e ∷ events) h = elim (Bool-cases (str_eq e.client_id c)) [
  | inl own ↦ rw (of_client, own) refl
  | inr other ↦ rw (of_client, other) (mentions-expected c events (ground (arith, h, other)))
]

-- The client that an agent's request is attributed to is one that the log's summary knows.
find_client_id_for_agent-known :
    (events : List LogEvent) (agent_id c : String)
    → find_client_id_for_agent events agent_id ≡ some c
    → is_some (get (fold_events events []) c) ≡ true
unfolding find_client_id_for_agent
find_client_id_for_agent-known events agent_id c h = elim (Bool-cases (str_eq agent_id "")) [
  | inl e ↦ let bad : false ≡ true = ground (arith, h, e) in cc
  | inr e ↦
      let sender : first_sender agent_id (reversed_events events) ≡ some c = ground (arith, h, e) in
      let known = sender_lem agent_id c (reversed_events events) sender in
      rw (fold_events-summary_of c events known.0)
        (mentions-expected c events (sym (mentions-reversed c events) ∙ known.1))
]
