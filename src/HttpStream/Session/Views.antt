-- ===== src/HttpStream/Session/Views.antt =====
-- What the owner of a client of src/frontend/src/services/http-stream.ts sees of the helpers that the
-- callbacks share.
use swarm_engine.Prelude.{
  ◌≡◌, refl, ◌∙◌, inl, inr, Bool, true, false, ◌&&◌, Option, List, [], ◌∷◌, Bool-cases,
  Option-cases,
}
use swarm_engine.Text.{Str}
use swarm_engine.StreamClient.{HttpStreamClientStatus, HttpStreamClientOptions, Client, is_failure}
use swarm_engine.HttpStream.{
  on_status_change, on_line, on_lines, cleanup_reader, abort_current, tell,
}
use swarm_engine.HttpStream.Session.{tells, view}

module _ {M E : Type 0} where
  pub view-on_status_change :
      (options : HttpStreamClientOptions) (s : HttpStreamClientStatus) (c : Client M E)
      → view (on_status_change options s c) ≡ tells options.auto_reconnect s (view c)
  unfolding on_status_change tell
  view-on_status_change options s c = elim (Bool-cases (options.auto_reconnect && is_failure s)) [
    | inl e ↦ rw e refl
    | inr e ↦ rw e refl
  ]

  pub view-cleanup_reader : (ok : Bool) (c : Client M E) → view (cleanup_reader ok c) ≡ view c
  unfolding cleanup_reader
  view-cleanup_reader true c = refl
  view-cleanup_reader false c = refl

  pub view-abort_current : (c : Client M E) → view (abort_current c) ≡ view c
  unfolding abort_current
  view-abort_current c = elim (Option-cases c.abort_controller) [
    | inl e ↦ rw e refl
    | inr (i, e) ↦ rw e refl
  ]

  module _ (parse : Str → Option M) where
    view-on_line : (l : Str) (c : Client M E) → view (on_line parse l c) ≡ view c
    unfolding on_line tell
    view-on_line l c = elim (Option-cases (parse l)) [
      | inl e ↦ rw (e, on_line) refl
      | inr (m, e) ↦ rw (e, on_line) refl
    ]

    flights-on_line : (l : Str) (c : Client M E) → (on_line parse l c).flights ≡ c.flights
    unfolding on_line tell
    flights-on_line l c = elim (Option-cases (parse l)) [
      | inl e ↦ rw (e, on_line) refl
      | inr (m, e) ↦ rw (e, on_line) refl
    ]

    pub view-on_lines : (ls : List Str) (c : Client M E) → view (on_lines parse ls c) ≡ view c
    unfolding on_lines
    view-on_lines [] c = refl
    view-on_lines (l ∷ ls) c = view-on_lines ls (on_line parse l c) ∙ view-on_line l c

    pub flights-on_lines :
        (ls : List Str) (c : Client M E) → (on_lines parse ls c).flights ≡ c.flights
    unfolding on_lines
    flights-on_lines [] c = refl
    flights-on_lines (l ∷ ls) c = flights-on_lines ls (on_line parse l c) ∙ flights-on_line l c
