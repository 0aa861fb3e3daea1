-- ===== src/Oom/Chats/Recency.antt =====
-- The writes of apps/system_interface/imbue/system_interface/oom_prioritizer.py: their range, and the
-- order of chats by their last messages.
use forever_claude_template.Base.{
  ℕ, suc, ◌+◌, ◌≤◌, ◌<◌, String, ◌≡◌, refl, true, false, Option, none, some, List, [], ◌∷◌, arith,
  eq_iff, str_eq, if◌then◌else◌, Dict, get, put, get-put, text_eq, contains, All, Option-cases, inl,
  inr,
}
use forever_claude_template.Oom.Bands.{
  chat_agent_base, chat_agent_floor, user_service, worker_agent,
}
use forever_claude_template.Oom.Bands.Ranges.{
  chat_agent_oom_score_adj_bounds, chat_agent_oom_score_adj_antitone, Implies, NotLaterRank,
}
use forever_claude_template.Oom.Chats.{
  Prioritizer, messaged, insert_newest, newest_first, ranks_from, rank_by_id, as_int, score, retag,
  reapply,
}

-- A write that leaves its process above every service and below every worker.
abbrev pub InChatBand : ℕ × ℕ → Type 0
InChatBand (pid, adj) =
    (chat_agent_floor ≤ adj) × (adj ≤ chat_agent_base) × (user_service < adj) × (adj < worker_agent)

retag-InChatBand :
    (s : Prioritizer) (ranks : Dict String ℕ) (resolve_pid : String → Option ℕ) (ids : List String)
    → All InChatBand (retag s ranks resolve_pid ids)
unfolding retag
retag-InChatBand s ranks resolve_pid [] = tt
retag-InChatBand s ranks resolve_pid (i ∷ ids) = elim (Option-cases (resolve_pid i)) [
  | inl e ↦ rw (e, All) (retag-InChatBand s ranks resolve_pid ids)
  | inr (pid, e) ↦
      rw (e, All) (chat_agent_oom_score_adj_bounds _ _ _, retag-InChatBand s ranks resolve_pid ids)
]

-- Whatever the activity, the chats and their processes, every write is in the chat band.
pub reapply-InChatBand :
    (s : Prioritizer) (resolve_pid : String → Option ℕ) (chat_ids : List String)
    → All InChatBand (reapply s resolve_pid chat_ids)
unfolding reapply
reapply-InChatBand s resolve_pid chat_ids =
    retag-InChatBand s (rank_by_id s.last_message_at chat_ids) resolve_pid chat_ids

abbrev Below : ℕ → List (String × ℕ) → Type 0
Below at [] = Unit
Below at ((cid, t) ∷ rest) = (t ≤ at) × Below at rest

abbrev Descending : List (String × ℕ) → Type 0
Descending [] = Unit
Descending ((cid, t) ∷ rest) = Below t rest × Descending rest

Below-trans : (a b : ℕ) (l : List (String × ℕ)) → a ≤ b → Below a l → Below b l
Below-trans a b [] h k = tt
Below-trans a b ((c, t) ∷ l) h k = (omega arith, Below-trans a b l h k.1)

Below-insert :
    (b : ℕ) (c : String) (t : ℕ) (l : List (String × ℕ))
    → t ≤ b
    → Below b l
    → Below b (insert_newest c t l)
unfolding insert_newest
Below-insert b c t [] h k = (h, tt)
Below-insert b c t ((d, u) ∷ l) h k = ground (arith, Below-insert b c t l h)

insert-Descending :
    (c : String) (t : ℕ) (l : List (String × ℕ)) → Descending l → Descending (insert_newest c t l)
unfolding insert_newest
insert-Descending c t [] d = (tt, tt)
insert-Descending c t ((e, u) ∷ l) d =
    ground (arith, insert-Descending c t l, Below-insert u c t l, Below-trans u t l)

newest_first-Descending : (l : List (String × ℕ)) → Descending (newest_first l)
unfolding newest_first
newest_first-Descending [] = tt
newest_first-Descending ((c, t) ∷ l) =
    insert-Descending c t (newest_first l) (newest_first-Descending l)

-- Each chat has one entry.
abbrev Distinct : List (String × ℕ) → Type 0
Distinct [] = Unit
Distinct ((cid, t) ∷ rest) = (get rest cid ≡ none) × Distinct rest

abbrev pub DistinctIds : List String → Type 0
DistinctIds [] = Unit
DistinctIds (cid ∷ rest) = (contains cid rest ≡ false) × DistinctIds rest

index : String → List (String × ℕ) → ℕ
index c [] = 0
index c ((d, t) ∷ l) = if str_eq d c then 0 else suc (index c l)

get-insert :
    (c d : String) (t : ℕ) (l : List (String × ℕ))
    → get l c ≡ none
    → get (insert_newest c t l) d ≡ (if str_eq c d then some t else get l d)
unfolding insert_newest get
get-insert c d t [] h = refl
get-insert c d t ((e, u) ∷ l) h =
    ground (arith, get-insert c d t l, eq_iff e d, eq_iff c d, eq_iff e c)

insert-Distinct :
    (c : String) (t : ℕ) (l : List (String × ℕ))
    → get l c ≡ none
    → Distinct l
    → Distinct (insert_newest c t l)
unfolding insert_newest get
insert-Distinct c t [] h d = (refl, tt)
insert-Distinct c t ((e, u) ∷ l) h d =
    ground (arith, insert-Distinct c t l, get-insert c e t l, eq_iff e c, eq_iff c e)

get-messaged :
    (times : Dict String ℕ) (ids : List String) (c : String)
    → get (messaged times ids) c ≡ (if contains c ids then get times c else none)
unfolding messaged get
get-messaged times [] c = refl
get-messaged times (i ∷ ids) c =
    ground (arith, get-messaged times ids c, eq_iff i c, Option-cases (get times i))

sorted-facts :
    (times : Dict String ℕ) (ids : List String) (c : String)
    → DistinctIds ids
    → Distinct (newest_first (messaged times ids))
      × (get (newest_first (messaged times ids)) c ≡ (if contains c ids then get times c else none))
unfolding newest_first messaged get
sorted-facts times [] c d = (tt, refl)
sorted-facts times (i ∷ ids) c d =
    let l = newest_first (messaged times ids) in
    elim (Option-cases (get times i)) [
      | inl e ↦ ground (arith, sorted-facts times ids c, eq_iff i c)
      | inr (t, e) ↦ ground (
        arith,
        sorted-facts times ids c,
        sorted-facts times ids i,
        insert-Distinct i t l,
        get-insert i c t l,
        eq_iff i c,
      )
    ]

get-ranks_from :
    (r : ℕ) (l : List (String × ℕ)) (m : Dict String ℕ) (c : String)
    → Distinct l
    → get (ranks_from r l m) c ≡ elim (get l c) [ none ↦ get m c | some t ↦ some (r + index c l) ]
unfolding ranks_from get index
get-ranks_from r [] m c d = refl
get-ranks_from r ((i, t) ∷ l) m c d =
    ground (arith, get-ranks_from (suc r) l (put m i r) c, get-put m i c r, eq_iff i c)

get-Below :
    (b : ℕ) (l : List (String × ℕ)) (c : String) (t : ℕ) → Below b l → get l c ≡ some t → t ≤ b
unfolding get
get-Below b [] c t h e = cc
get-Below b ((d, u) ∷ l) c t h e = ground (arith, get-Below b l c t)

index-lt :
    (l : List (String × ℕ)) (a b : String) (s t : ℕ)
    → Descending l
    → get l a ≡ some s
    → get l b ≡ some t
    → t < s
    → index a l < index b l
unfolding get index
index-lt [] a b s t d p q h = cc
index-lt ((c, u) ∷ l) a b s t d p q h =
    ground (arith, index-lt l a b s t, get-Below u l a s, eq_iff c a, eq_iff c b)

-- The first was messaged after the second, or the second was never messaged.
abbrev pub IsLater : Option ℕ → Option ℕ → Type 0
IsLater (some s) none = Unit
IsLater (some s) (some t) = t < s
IsLater none t = ⊥

get-rank_by_id :
    (times : Dict String ℕ) (ids : List String) (c : String)
    → DistinctIds ids
    → contains c ids ≡ true
    → get (rank_by_id times ids) c ≡ elim (get times c) [
      | none ↦ none
      | some t ↦ some (index c (newest_first (messaged times ids)))
    ]
unfolding rank_by_id get
get-rank_by_id times ids c d p =
    let l = newest_first (messaged times ids) in
    let (distinct, found) = sorted-facts times ids c d in
    ground (arith, get-ranks_from 0 l [] c distinct)

rank_by_id-IsLater :
    (times : Dict String ℕ) (ids : List String) (a b : String)
    → DistinctIds ids
    → contains a ids ≡ true
    → contains b ids ≡ true
    → IsLater (get times a) (get times b)
    → NotLaterRank (as_int (get (rank_by_id times ids) a)) (as_int (get (rank_by_id times ids) b))
rank_by_id-IsLater times ids a b d p q h =
    let l = newest_first (messaged times ids) in
    elim (Option-cases (get times a)) [
      | inl e ↦ ground arith
      | inr (s, e) ↦ elim (Option-cases (get times b)) [
        | inl f ↦ ground (arith, get-rank_by_id times ids a d p, get-rank_by_id times ids b d q)
        | inr (t, f) ↦ ground (
          arith,
          get-rank_by_id times ids a d p,
          get-rank_by_id times ids b d q,
          sorted-facts times ids a d,
          sorted-facts times ids b d,
          index-lt l a b s t (newest_first-Descending (messaged times ids)),
        )
      ]
    ]

-- Of two chats, the one that was messaged later and is open and visible at least when the other is
-- gets an oom_score_adj at most the other's.
pub score-IsLater :
    (s : Prioritizer) (ids : List String) (a b : String)
    → DistinctIds ids
    → contains a ids ≡ true
    → contains b ids ≡ true
    → IsLater (get s.last_message_at a) (get s.last_message_at b)
    → Implies (contains b s.open_ids) (contains a s.open_ids)
    → Implies (contains b s.visible_ids) (contains a s.visible_ids)
    → score s (rank_by_id s.last_message_at ids) a ≤ score s (rank_by_id s.last_message_at ids) b
unfolding score
score-IsLater s ids a b d p q h o v =
    chat_agent_oom_score_adj_antitone _ _ _ _ _ _ (ground arith) v
      (rank_by_id-IsLater s.last_message_at ids a b d p q h)
