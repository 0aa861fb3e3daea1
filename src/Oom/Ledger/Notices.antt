-- ===== src/Oom/Ledger/Notices.antt =====
-- Which sheds of libs/oom_priority/src/oom_priority/ledger.py are still to be told.
use forever_claude_template.Base.{not, ◌&&◌}
use forever_claude_template.Base.{
  String, ◌≡◌, refl, ◌∙◌, eq_refl, ◌≢◌, true, false, Option, some, List, [], ◌∷◌, ◌++◌, arith,
  eq_iff, All, if◌then◌else◌, str_eq, Text, text_ltb, text_max, text_ltb_irrefl, text_ltb_trans,
  text_le-ltb_trans, text_ltb-le_trans, text_ltb-nil, is_some_text,
}
use mathlib.Core.List.{append-nil}
use forever_claude_template.Oom.Ledger.{
  Record, append_shed_record, append_notice_delivered, is_notice_for, is_pending, latest_from,
  latest_delivered_timestamp, pending_after, pending_shed_timestamps, has_pending_shed, max_from,
  notice_hook,
}

latest_from-append :
    (best : Text) (a : String) (rs : List Record) (r : Record)
    → latest_from best a (rs ++ r ∷ []) ≡ (
        if is_notice_for a r
        then text_max (latest_from best a rs) r.up_to_timestamp
        else latest_from best a rs)
unfolding latest_from
latest_from-append best a [] r = ground arith
latest_from-append best a (q ∷ rs) r = ground (
  arith,
  latest_from-append best a rs r,
  latest_from-append (text_max best q.up_to_timestamp) a rs r,
)

pending_after-append :
    (t : Text) (a : String) (rs : List Record) (r : Record)
    → pending_after t a (rs ++ r ∷ [])
      ≡ pending_after t a rs ++ (if is_pending t a r then r.timestamp ∷ [] else [])
unfolding pending_after
pending_after-append t a [] r = ground arith
pending_after-append t a (q ∷ rs) r = ground (arith, pending_after-append t a rs r)

max_from-best : (b : Text) (ts : List Text) → text_ltb (max_from b ts) b ≡ false
unfolding max_from
max_from-best b [] = text_ltb_irrefl b
max_from-best b (t ∷ ts) = ground (
  arith,
  max_from-best (text_max b t) ts,
  max_from-best b ts,
  max_from-best t ts,
  text_ltb_trans (max_from t ts) b t,
)

max_from-All : (b : Text) (ts : List Text) → All (λ t. text_ltb (max_from b ts) t ≡ false) ts
unfolding max_from
max_from-All b [] = tt
max_from-All b (t ∷ ts) = (
  ground (arith, max_from-best b ts, max_from-best t ts, text_le-ltb_trans b (max_from b ts) t),
  max_from-All (text_max b t) ts,
)

-- Once everything pending is covered, nothing is pending.
pending_after-covered :
    (t u : Text) (a : String) (rs : List Record)
    → text_ltb u t ≡ false
    → All (λ x. text_ltb u x ≡ false) (pending_after t a rs)
    → pending_after u a rs ≡ []
unfolding pending_after
pending_after-covered t u a [] h k = refl
pending_after-covered t u a (r ∷ rs) h k =
    ground (arith, pending_after-covered t u a rs, text_le-ltb_trans t u r.timestamp)

latest-append_notice :
    (now : Text) (a b : String) (u : Text) (rs : List Record)
    → latest_delivered_timestamp (append_notice_delivered now a u rs) b ≡ (
        if str_eq a b
        then text_max (latest_delivered_timestamp rs b) u
        else latest_delivered_timestamp rs b)
unfolding append_notice_delivered latest_delivered_timestamp
latest-append_notice now a b u rs = latest_from-append [] b rs (record {
  kind = "notice_delivered";
  agent_name = some a;
  timestamp = now;
  up_to_timestamp = u;
})

pending_after-append_notice :
    (t now : Text) (a b : String) (u : Text) (rs : List Record)
    → pending_after t b (append_notice_delivered now a u rs) ≡ pending_after t b rs
unfolding append_notice_delivered
pending_after-append_notice t now a b u rs =
    pending_after-append t b rs (record {
      kind = "notice_delivered";
      agent_name = some a;
      timestamp = now;
      up_to_timestamp = u;
    })
    ∙ append-nil (pending_after t b rs)

pending_after-later :
    (t : Text) (a : String) (rs : List Record)
    → All (λ x. text_ltb t x ≡ true) (pending_after t a rs)
unfolding pending_after
pending_after-later t a [] = tt
pending_after-later t a (r ∷ rs) = ground (arith, pending_after-later t a rs)

text_ltb-asym : (s t : Text) → text_ltb s t ≡ true → text_ltb t s ≡ false
text_ltb-asym s t h = ground (arith, text_ltb_trans s t s, text_ltb_irrefl s)

-- The notice that covers everything pending for an agent leaves it nothing pending.
append_notice_delivered-covers :
    (now : Text) (a : String) (t : Text) (ts : List Text) (rs : List Record)
    → pending_shed_timestamps rs a ≡ t ∷ ts
    → pending_shed_timestamps (append_notice_delivered now a (max_from t ts) rs) a ≡ []
unfolding pending_shed_timestamps
append_notice_delivered-covers now a t ts rs e =
    let old = latest_delivered_timestamp rs a in
    let new = max_from t ts in
    let later : All (λ x. text_ltb old x ≡ true) (t ∷ ts) =
      rw e at (pending_after-later old a rs) in
    let newer = text_ltb-le_trans old t new later.0 (max_from-best t ts) in
    let old_first = text_ltb-asym old new newer in
    rw (latest-append_notice, pending_after-append_notice, eq_refl a, newer)
      (pending_after-covered old new a rs old_first (rw e (max_from-best t ts, max_from-All t ts)))

-- The hook prints a notice exactly when the agent's name is set and the agent has a shed pending, and
-- afterwards nothing is pending for the agent; for an agent whose name is not set, what is pending
-- stays as it was.
pub notice_hook-pending :
    (now : Text) (a : String) (rs : List Record)
    → (pending_shed_timestamps (notice_hook now a rs).0 a
        ≡ (if str_eq a "" then pending_shed_timestamps rs a else []))
      × ((notice_hook now a rs).1 ≡ (not (str_eq a "") && has_pending_shed a rs))
unfolding notice_hook has_pending_shed
notice_hook-pending now a rs = go (pending_shed_timestamps rs a) refl
  where
    go :
        (ps : List Text)
        → pending_shed_timestamps rs a ≡ ps
        → (pending_shed_timestamps (notice_hook now a rs).0 a
            ≡ (if str_eq a "" then pending_shed_timestamps rs a else []))
          × ((notice_hook now a rs).1 ≡ (not (str_eq a "") && has_pending_shed a rs))
    go [] e = ground arith
    go (t ∷ ts) e = ground (arith, append_notice_delivered-covers now a t ts rs)

append_notice_delivered-other :
    (now : Text) (a b : String) (u : Text) (rs : List Record)
    → a ≢ b
    → pending_shed_timestamps (append_notice_delivered now a u rs) b ≡ pending_shed_timestamps rs b
unfolding pending_shed_timestamps
append_notice_delivered-other now a b u rs h =
    rw (latest-append_notice, pending_after-append_notice) (ground (arith, eq_iff a b))

-- The hook, run for one agent, leaves what is pending for every other agent as it was.
pub notice_hook-other :
    (now : Text) (a b : String) (rs : List Record)
    → a ≢ b
    → pending_shed_timestamps (notice_hook now a rs).0 b ≡ pending_shed_timestamps rs b
unfolding notice_hook
notice_hook-other now a b rs h = go (pending_shed_timestamps rs a) refl
  where
    go :
        (ps : List Text)
        → pending_shed_timestamps rs a ≡ ps
        → pending_shed_timestamps (notice_hook now a rs).0 b ≡ pending_shed_timestamps rs b
    go [] e = ground arith
    go (t ∷ ts) e = ground (arith, append_notice_delivered-other now a b (max_from t ts) rs h)

-- A shed recorded at a time after the agent's last notice is added at the end of what is pending for
-- the agent when the process is the agent's, and adds nothing otherwise.
pub append_shed_record-pending :
    (now : Text) (owner : Option String) (a : String) (rs : List Record)
    → text_ltb (latest_delivered_timestamp rs a) now ≡ true
    → pending_shed_timestamps (append_shed_record now owner rs) a
      ≡ pending_shed_timestamps rs a ++ (if is_some_text owner a then now ∷ [] else [])
unfolding append_shed_record pending_shed_timestamps latest_delivered_timestamp
append_shed_record-pending now owner a rs h =
    let r : Record = record {
      kind = "process_shed";
      agent_name = owner;
      timestamp = now;
      up_to_timestamp = [];
    } in
    ground (
      arith,
      text_ltb-nil (latest_from [] a rs),
      latest_from-append [] a rs r,
      pending_after-append (latest_from [] a rs) a rs r,
    )
