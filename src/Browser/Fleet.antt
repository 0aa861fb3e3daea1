-- ===== src/Browser/Fleet.antt =====
-- The registry of the fleet: `BrowserSessionManager` of libs/browser/src/browser/session.py and
-- libs/browser/src/browser/names.py. A session object is named by a number. `draws` are the names that
-- the generator returns, and `decimal` is Python's text of a number.
pub mod Naming
pub mod Capacity
mod Examples
use forever_claude_template.Base.{
  ℕ, suc, ◌+◌, Bool, true, false, ◌&&◌, ◌||◌, not, Option, none, some, List, [], ◌∷◌, ◌++◌, length,
  drop, ◌-◌, leb, ltb, ◌==◌, if◌then◌else◌, Dict, get, has, put, remove, Text, text_beq, code_eq,
  in_names, first_free,
}
use forever_claude_template.Browser.Control.{Lifecycle, init, running, crashed, is_crashed}
use forever_claude_template.Interface.Layouts.Slugs.{is_words}

pub record Member : Type 0 where
  pub session : ℕ
  pub lifecycle : Lifecycle

pub record Fleet : Type 0 where
  pub browsers : Dict Text Member
  pub next_session : ℕ
  pub closed_sessions : List ℕ
  pub failed_launch_names : List Text

abbrev pub empty : Fleet
empty = record { browsers = []; next_session = 0; closed_sessions = []; failed_launch_names = [] }

abbrev pub failed_launch_memory : ℕ
failed_launch_memory = 32

abbrev pub max_name_len : ℕ
max_name_len = 40

-- `name.isdigit()`, which for the names that the pattern admits is about `[0-9]` alone
unfoldable pub is_digits : Text → Bool
is_digits [] = true
is_digits (c ∷ cs) = (leb 48 c && leb c 57) && is_digits cs

unfoldable pub is_valid_browser_name : Text → Bool
unfolding is_digits
is_valid_browser_name name =
    leb (length name) max_name_len && not (is_digits name) && is_words true name

-- `live_browsers`: init and running ones.
unfoldable pub live_count : Dict Text Member → ℕ
live_count [] = 0
live_count ((name, m) ∷ rest) =
    let n = live_count rest in if is_crashed m.lifecycle then n else suc n

unfoldable pub names_of : Dict Text Member → List Text
names_of [] = []
names_of ((name, m) ∷ rest) = name ∷ names_of rest

unfoldable pub without_text : Text → List Text → List Text
without_text name [] = []
without_text name (other ∷ rest) =
    let kept = without_text name rest in if text_beq other name then kept else other ∷ kept

unfoldable pub register_init : Text → Fleet → Fleet
unfolding without_text
register_init name s = record s {
  browsers = put s.browsers name (record { session = s.next_session; lifecycle = init });
  next_session = suc s.next_session;
  failed_launch_names = without_text name s.failed_launch_names;
}

-- Fifty draws, then one more with the first suffix that is free.
unfoldable pub fresh_name : (ℕ → Text) → (ℕ → Text) → Dict Text Member → Option Text
unfolding first_free
fresh_name draws decimal browsers =
    let names = names_of browsers in
    let suffixed = λ (n : ℕ). draws 50 ++ 45 ∷ decimal n in
    elim (first_free draws 50 0 names) [
      | some i ↦ some (draws i)
      | none ↦ elim (first_free suffixed (suc (length names)) 1 names) [
        | some n ↦ some (suffixed n)
        | none ↦ none
      ]
    ]

-- The answers of `create`; `no_name` stands for a search that runs out of rounds.
pub data Created : Type 0 where
  created : Text → Created
  fleet_full invalid_name duplicate_name no_name : Created

abbrev pub registered_fresh : Option Text → Fleet → Fleet × Created
registered_fresh none s = (s, no_name)
registered_fresh (some name) s = (register_init name s, created name)

unfoldable pub create : ℕ → (ℕ → Text) → (ℕ → Text) → Option Text → Fleet → Fleet × Created
unfolding is_valid_browser_name live_count fresh_name register_init
create max_sessions draws decimal wanted s =
    if leb max_sessions (live_count s.browsers) then (s, fleet_full) else elim wanted [
      | none ↦ registered_fresh (fresh_name draws decimal s.browsers) s
      | some name ↦
          if not (is_valid_browser_name name)
          then (s, invalid_name)
          else if has s.browsers name
          then (s, duplicate_name)
          else (register_init name s, created name)
    ]

-- The locked part of `_launch_one_restore`; the flag tells that the browser is there or coming.
unfoldable pub restore_one : ℕ → Text → Fleet → Fleet × Bool
unfolding live_count register_init
restore_one max_sessions name s =
    if has s.browsers name
    then (s, true)
    else if leb max_sessions (live_count s.browsers)
    then (s, false)
    else (register_init name s, true)

unfoldable pub is_closed : ℕ → List ℕ → Bool
is_closed session [] = false
is_closed session (other ∷ rest) = other == session || is_closed session rest

-- The test with which `_launch` begins.
unfoldable pub begins_launch : ℕ → Text → Fleet → Bool
unfolding is_closed
begins_launch session name s = not (is_closed session s.closed_sessions) && has s.browsers name

abbrev pub up : ℕ → Text → Option Member → Dict Text Member → Dict Text Member
up session name none browsers = browsers
up session name (some m) browsers =
    if m.session == session && not (is_crashed m.lifecycle)
    then put browsers name (record m { lifecycle = running })
    else browsers

-- `start` came up: the session is running, unless it was closed or it crashed meanwhile.
unfoldable pub launch_up : ℕ → Text → Fleet → Fleet
unfolding is_closed
launch_up session name s =
    if is_closed session s.closed_sessions
    then s
    else record s { browsers = up session name (get s.browsers name) s.browsers }

-- `deque.append` with a bound: the oldest goes.
abbrev pub remembered : List Text → List Text
remembered names = drop (length names - failed_launch_memory) names

-- `start` raised: the session that failed is closed.
unfoldable pub launch_failed : ℕ → Text → Fleet → Fleet
launch_failed session name s = record s {
  browsers = remove s.browsers name;
  failed_launch_names = remembered (s.failed_launch_names ++ name ∷ []);
  closed_sessions = session ∷ s.closed_sessions;
}

abbrev pub closed_with : Option Member → List ℕ → List ℕ
closed_with none closed = closed
closed_with (some m) closed = m.session ∷ closed

unfoldable pub close : Text → Fleet → Fleet
close name s = record s {
  browsers = remove s.browsers name;
  closed_sessions = closed_with (get s.browsers name) s.closed_sessions;
}

abbrev pub crashed_member : Text → Option Member → Dict Text Member → Dict Text Member
crashed_member name none browsers = browsers
crashed_member name (some m) browsers = put browsers name (record m { lifecycle = crashed })

-- The process of a registered browser dies.
unfoldable pub crash : Text → Fleet → Fleet
crash name s = record s { browsers = crashed_member name (get s.browsers name) s.browsers }
