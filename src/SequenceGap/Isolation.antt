-- ===== src/SequenceGap/Isolation.antt =====
-- Which frames leave a session's position alone.
use fleet_prime_agent.Prelude.{
  ◌≡◌, refl, ◌∙◌, String, Bool, true, false, List, [], ◌∷◌, arith, ◌==◌, not, all,
}
use fleet_prime_agent.Prelude.Dict.{lookup, lookup-insert, lookup-delete}
use fleet_prime_agent.Prelude.Json.{Value}
use fleet_prime_agent.SequenceGap.{
  Position, Positions, View, ignored, unbinds, rebases, event, view, track, handle, observe,
  observe_all,
}

-- The frame names another session, or none.
abbrev pub spares : String → View → Bool
spares s ignored = true
spares s (unbinds session) = not (session == s)
spares s (rebases session position) = not (session == s)
spares s (event session current closes update) = not (session == s)

module _ (s : String) where
  track-spares :
      (positions : Positions) (session : String) (current : Position) (closes : Bool)
      → (session == s) ≡ false
      → lookup s (track positions session current closes) ≡ lookup s positions
  unfolding track
  track-spares positions session current closes other =
      ground (arith, lookup-delete session s positions, lookup-insert session s current positions)

  handle-spares :
      (positions : Positions) (v : View)
      → spares s v ≡ true
      → lookup s (handle positions v).0 ≡ lookup s positions
  unfolding handle
  handle-spares positions ignored other = refl
  handle-spares positions (unbinds session) other =
      ground (arith, lookup-delete session s positions)
  handle-spares positions (rebases session position) other =
      ground (arith, lookup-insert session s position positions)
  handle-spares positions (event session current closes update) other =
      track-spares positions session current closes (ground arith)

  -- Frames that name other sessions, in any number and of any kind, leave a session's tracked
  -- position as it was.
  pub observe_all-spares :
      (positions : Positions) (frames : List Value)
      → all (λ frame. spares s (view frame)) frames ≡ true
      → lookup s (observe_all positions frames).0 ≡ lookup s positions
  unfolding observe_all observe
  observe_all-spares positions [] other = refl
  observe_all-spares positions (frame ∷ frames) other =
      observe_all-spares (handle positions (view frame)).0 frames (ground arith)
      ∙ handle-spares positions (view frame) (ground arith)
