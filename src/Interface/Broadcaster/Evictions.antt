-- ===== src/Interface/Broadcaster/Evictions.antt =====
-- What is left of a client that is given up: apps/system_interface/imbue/system_interface/ws_broadcaster.py.
use forever_claude_template.Base.{
  ℕ, ◌≡◌, refl, inl, inr, Bool-cases, true, false, none, List, [], ◌∷◌, arith, ◌==◌, get,
  get-remove, nat_eq,
}
use forever_claude_template.Interface.Broadcaster.{
  Broadcaster, mem, unregister, disconnect, disconnect_all,
}
use forever_claude_template.Interface.Broadcaster.Rounds.{
  DistinctQueues, mem-erase, erase-DistinctQueues,
}

-- A client that the broadcaster has forgotten, whose thread finds only the sentinel.
abbrev pub IsGone : ℕ → Broadcaster → Type 0
IsGone p s =
    (s.contents p ≡ none ∷ [])
    × (get s.consecutive_full p ≡ none)
    × (get s.client_infos p ≡ none)
    × (mem p s.client_queues ≡ false)

disconnect-IsGone :
    (p : ℕ) (s : Broadcaster) → DistinctQueues s.client_queues → IsGone p (disconnect p s)
unfolding disconnect unregister
disconnect-IsGone p s d = (
  ground arith,
  ground (arith, get-remove s.consecutive_full p p),
  ground (arith, get-remove s.client_infos p p),
  ground (arith, mem-erase p p s.client_queues),
)

disconnect-other :
    (q p : ℕ) (s : Broadcaster)
    → DistinctQueues s.client_queues
    → (q == p) ≡ false
    → ((disconnect q s).contents p ≡ s.contents p)
      × (get (disconnect q s).consecutive_full p ≡ get s.consecutive_full p)
      × (get (disconnect q s).client_infos p ≡ get s.client_infos p)
      × (mem p (disconnect q s).client_queues ≡ mem p s.client_queues)
unfolding disconnect unregister
disconnect-other q p s d n = (
  ground arith,
  ground (arith, get-remove s.consecutive_full q p),
  ground (arith, get-remove s.client_infos q p),
  ground (arith, mem-erase p q s.client_queues),
)

pub disconnect-DistinctQueues :
    (q : ℕ) (s : Broadcaster)
    → DistinctQueues s.client_queues
    → DistinctQueues (disconnect q s).client_queues
unfolding disconnect unregister
disconnect-DistinctQueues q s d = erase-DistinctQueues q s.client_queues d

pub disconnect_all-other :
    (p : ℕ) (ds : List ℕ) (s : Broadcaster)
    → DistinctQueues s.client_queues
    → mem p ds ≡ false
    → ((disconnect_all ds s).contents p ≡ s.contents p)
      × (get (disconnect_all ds s).consecutive_full p ≡ get s.consecutive_full p)
      × (get (disconnect_all ds s).client_infos p ≡ get s.client_infos p)
      × (mem p (disconnect_all ds s).client_queues ≡ mem p s.client_queues)
unfolding disconnect_all mem
disconnect_all-other p [] s d h = (refl, refl, refl, refl)
disconnect_all-other p (q ∷ ds) s d h =
    let other = disconnect-other q p s d (ground arith) in
    let rest =
      disconnect_all-other p ds (disconnect q s) (disconnect-DistinctQueues q s d) (ground arith) in
    (cc, cc, cc, cc)

disconnect_all-stays-IsGone :
    (p : ℕ) (ds : List ℕ) (s : Broadcaster)
    → DistinctQueues s.client_queues
    → IsGone p s
    → IsGone p (disconnect_all ds s)
unfolding disconnect_all
disconnect_all-stays-IsGone p [] s d g = g
disconnect_all-stays-IsGone p (q ∷ ds) s d g =
    let d' = disconnect-DistinctQueues q s d in
    let go = disconnect_all-stays-IsGone p ds (disconnect q s) d' in
    elim (Bool-cases (q == p)) [
      | inl e ↦ let same : q ≡ p = ground arith in go (rw same (disconnect-IsGone p s d))
      | inr e ↦ let other = disconnect-other q p s d e in go (cc, cc, cc, cc)
    ]

pub disconnect_all-IsGone :
    (p : ℕ) (ds : List ℕ) (s : Broadcaster)
    → DistinctQueues s.client_queues
    → mem p ds ≡ true
    → IsGone p (disconnect_all ds s)
unfolding disconnect_all mem
disconnect_all-IsGone p [] s d h = cc
disconnect_all-IsGone p (q ∷ ds) s d h =
    let d' = disconnect-DistinctQueues q s d in
    elim (Bool-cases (q == p)) [
      | inl e ↦
          let same : q ≡ p = ground arith in
          disconnect_all-stays-IsGone p ds (disconnect q s) d' (rw same (disconnect-IsGone p s d))
      | inr e ↦ disconnect_all-IsGone p ds (disconnect q s) d' (ground arith)
    ]
