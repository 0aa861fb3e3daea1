-- ===== src/Browser/Control/Queues.antt =====
-- The queues of `LiveBrowser`: what adding and dropping an entry does to membership and order.
use forever_claude_template.Base.{
  String, ◌≡◌, Bool, false, ◌||◌, Option, none, some, List, [], ◌∷◌, arith, eq_iff, if◌then◌else◌,
  str_eq,
}
use forever_claude_template.Browser.Control.{queued, without, append_resume}

-- Each agent is in the queue once.
abbrev pub Distinct : List (String × Option String) → Type 0
Distinct [] = Unit
Distinct ((agent_id, name) ∷ rest) = (queued agent_id rest ≡ false) × Distinct rest

abbrev pub owner_queued : Option String → List (String × Option String) → Bool
owner_queued none q = false
owner_queued (some agent_id) q = queued agent_id q

pub queued-without :
    (a b : String) (q : List (String × Option String))
    → queued a (without b q) ≡ (if str_eq b a then false else queued a q)
unfolding queued without
queued-without a b [] = ground arith
queued-without a b ((i, n) ∷ q) =
    ground (arith, eq_iff i a, eq_iff i b, eq_iff b a, queued-without a b q)

pub queued-append_resume :
    (a b : String) (n : Option String) (q : List (String × Option String))
    → queued a (append_resume q b n) ≡ (queued a q || str_eq b a)
unfolding queued append_resume
queued-append_resume a b n [] = ground arith
queued-append_resume a b n ((i, m) ∷ q) = ground (arith, queued-append_resume a b n q)

pub without-Distinct :
    (b : String) (q : List (String × Option String)) → Distinct q → Distinct (without b q)
unfolding without
without-Distinct b [] d = tt
without-Distinct b ((i, n) ∷ q) d =
    ground (arith, without-Distinct b q, queued-without i b q, eq_iff i b, eq_iff b i)

pub append_resume-Distinct :
    (b : String) (n : Option String) (q : List (String × Option String))
    → queued b q ≡ false
    → Distinct q
    → Distinct (append_resume q b n)
unfolding append_resume queued
append_resume-Distinct b n [] h d = ground arith
append_resume-Distinct b n ((i, m) ∷ q) h d =
    ground
      (arith, append_resume-Distinct b n q, queued-append_resume i b n q, eq_iff i b, eq_iff b i)
