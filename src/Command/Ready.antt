-- ===== src/Command/Ready.antt =====
-- main.go and api.go: the two readiness endpoints over the life of the collector.
use pulsebox.Base.{ℕ, true, false, [], ◌∷◌, ◌≡◌, refl, sym, ◌∙◌, arith, Bool-cases, inl, inr}
use pulsebox.Base.Int.{Time}
use pulsebox.Base.Float.{Float}
use pulsebox.Collector.Stream.{snapshot, no_graph, new_stream}
use pulsebox.Collector.Build.Roots.{Config}
use pulsebox.Collector.Access.{
  Collector, StartPhase, syncing, marked, looping, new_collector, start_step,
}
use pulsebox.Collector.Access.Life.{Lives, made, caches_change, clients_change, advances}
use pulsebox.Api.{Request, json, upgrade, route, match_path, handle, handle_health, serve_request}
use pulsebox.Command.{
  Reply, text, scrape, api, dashboard, no_page, readyz, serve_metrics, serve_dashboard,
}

-- The status of a reply; a scrape and a page of the dashboard are served with 200.
abbrev pub status_of : {F : Type 0} → Reply F → ℕ
status_of (text code body) = code
status_of (scrape samples) = 200
status_of (api (json code body)) = code
status_of (api upgrade) = 101
status_of dashboard = 200
status_of no_page = 404

-- `GET /api/health?ready=1`
abbrev pub ready_request : Request
ready_request = record { method = "GET"; path = "api" ∷ "health" ∷ []; ready = "1" }

module _ {F : Type 0} (fl : Float F) (cfg : Config) where
  -- Before the collector is marked synced no graph is published; afterwards it stays marked.
  abbrev Fits : StartPhase → Collector F → Type 0
  Fits syncing c = snapshot c.stream ≡ no_graph
  Fits marked c = c.synced ≡ true
  Fits looping c = c.synced ≡ true

  start_step-Fits :
      (now : Time) (p : StartPhase) (c : Collector F)
      → Fits p c
      → Fits (start_step ⦃fl = fl⦄ now p c).0 (start_step ⦃fl = fl⦄ now p c).1
  unfolding start_step
  start_step-Fits now syncing c h = refl
  start_step-Fits now marked c h = h
  start_step-Fits now looping c h = h

  Lives-Fits : {p : StartPhase} {c : Collector F} → Lives fl cfg p c → Fits p c
  unfolding snapshot new_collector new_stream
  Lives-Fits made = refl
  Lives-Fits (caches_change {p = syncing} l caches events) = Lives-Fits l
  Lives-Fits (caches_change {p = marked} l caches events) = Lives-Fits l
  Lives-Fits (caches_change {p = looping} l caches events) = Lives-Fits l
  Lives-Fits (clients_change {p = syncing} l b) = Lives-Fits l
  Lives-Fits (clients_change {p = marked} l b) = Lives-Fits l
  Lives-Fits (clients_change {p = looping} l b) = Lives-Fits l
  Lives-Fits (advances {p} {c} l now) = start_step-Fits now p c (Lives-Fits l)

  unsynced-bare :
      (p : StartPhase) (c : Collector F)
      → Fits p c
      → c.synced ≡ false
      → snapshot c.stream ≡ no_graph
  unsynced-bare syncing c f h = f
  unsynced-bare marked c f h = absurd (ground (arith, f, h))
  unsynced-bare looping c f h = absurd (ground (arith, f, h))

  ready-agree :
      ⦃fl : Float F⦄ (now : Time) (c : Collector F)
      → status_of (serve_metrics now ("readyz" ∷ []) c)
        ≡ status_of (serve_dashboard now ready_request c)
  unfolding serve_metrics readyz serve_dashboard serve_request route match_path handle handle_health
  ready-agree now c = elim (Bool-cases c.synced) [ inl e ↦ rw e refl | inr e ↦ rw e refl ]

  pub unready-bare :
      (now : Time) {p : StartPhase} {c : Collector F}
      → Lives fl cfg p c
      → status_of (serve_metrics ⦃fl = fl⦄ now ("readyz" ∷ []) c) ≡ 503
      → (status_of (serve_dashboard now ready_request c) ≡ 503) × (snapshot c.stream ≡ no_graph)
  unfolding serve_metrics readyz
  unready-bare now {p} {c} l h = elim (Bool-cases c.synced) [
    | inl e ↦ absurd (ground (arith, rw e at h))
    | inr e ↦ (sym (ready-agree ⦃fl = fl⦄ now c) ∙ h, unsynced-bare p c (Lives-Fits l) e)
  ]
