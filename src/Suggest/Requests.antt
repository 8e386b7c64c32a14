-- ===== src/Suggest/Requests.antt =====
-- The requests over any events.
use public_lighting_fault_re.Base.{
  ℕ, ◌+◌, ◌≡◌, inl, inr, false, List, [], ◌∷◌, All, arith, Bool-cases,
}
use public_lighting_fault_re.Suggest.{Settings, Outside, Desk, State, idle}
use public_lighting_fault_re.Suggest.Events.{
  Event, request, abort, expiry_timer, spacing_timer, timeout_timer, work_ends, handle, handle_all,
}
use public_lighting_fault_re.Suggest.Held.{waiting, tally, IsHeld, IsClean}
use public_lighting_fault_re.Suggest.Answers.{IsTally}
use public_lighting_fault_re.Suggest.Tended.{AllTended}
use public_lighting_fault_re.Suggest.Tended.Events.{handle_all-AllTended, idle-AllTended}
use public_lighting_fault_re.Suggest.Tally.{
  pump-IsTally, run-IsTally, abort-IsTally, expire-IsTally, time_out-IsTally, end_work-IsTally,
}

-- The requests among the events.
unfoldable pub requests : List Event → ℕ
requests [] = 0
requests (request k x b ∷ es) = requests es + 1
requests (_ ∷ es) = requests es

module _ (w : Outside) (c : Settings) where
  steady : (n : ℕ) (d : Desk) → IsTally n d → IsTally (0 + n) d
  steady n d h = (omega (arith, h.0), h.1, h.2)

  handle-IsTally :
      (e : Event) (n : ℕ) (s : State)
      → IsTally n s.desk
      → IsTally (requests (e ∷ []) + n) (handle w c e s).desk
  unfolding handle requests
  handle-IsTally (request k x b) n s h =
      let same : n + 1 ≡ 0 + 1 + n = omega arith in rw same at (run-IsTally w c k x b n s h)
  handle-IsTally (abort i x) n s h = steady n _ (abort-IsTally w c i x n s h)
  handle-IsTally (expiry_timer i) n s h = steady n _ (expire-IsTally w c i n s h)
  handle-IsTally spacing_timer n s h = elim (Bool-cases s.spacing_armed) [
    | inl e ↦ simp e (steady n _ (pump-IsTally w c n (record s { spacing_armed = false }) h))
    | inr e ↦ simp e (steady n s.desk h)
  ]
  handle-IsTally (timeout_timer i) n s h = steady n _ (time_out-IsTally w c i n s h)
  handle-IsTally (work_ends i a) n s h = steady n _ (end_work-IsTally w c i n a s h)

  requests-cons :
      (e : Event) (es : List Event) (n : ℕ)
      → requests es + (requests (e ∷ []) + n) ≡ requests (e ∷ es) + n
  unfolding requests
  requests-cons (request k x b) es n = omega arith
  requests-cons (abort i x) es n = omega arith
  requests-cons (expiry_timer i) es n = omega arith
  requests-cons spacing_timer es n = omega arith
  requests-cons (timeout_timer i) es n = omega arith
  requests-cons (work_ends i a) es n = omega arith

  handle_all-IsTally :
      (es : List Event) (n : ℕ) (s : State)
      → IsTally n s.desk
      → IsTally (requests es + n) (handle_all w c es s).desk
  unfolding handle_all requests
  handle_all-IsTally [] n s h = steady n s.desk h
  handle_all-IsTally (e ∷ es) n s h =
      rw (requests-cons e es n) at
        (handle_all-IsTally es (requests (e ∷ []) + n) (handle w c e s) (handle-IsTally e n s h))

  -- No request is lost: after any events, the answers and the requests that wait are together as
  -- many as the requests; nobody waits on a settled entry, each entry that `inFlight` names is
  -- unsettled and stands under its key, and each entry that is not settled is tended: it is queued
  -- and stands in the queue, or a call of the provider for it is under way whose time is not up.
  pub handle_all-tally :
      (es : List Event)
      → (tally (handle_all w c es idle).desk ≡ requests es)
        × All (IsHeld (handle_all w c es idle).desk.entries) (handle_all w c es idle).desk.in_flight
        × All IsClean (handle_all w c es idle).desk.entries
        × AllTended (handle_all w c es idle)
  unfolding waiting
  handle_all-tally es =
      let same : requests es + 0 ≡ requests es = omega arith in
      let (all, held, clean) = rw same at (handle_all-IsTally es 0 idle (omega arith, tt, tt)) in
      (all, held, clean, handle_all-AllTended w c es idle (idle-AllTended w c))
