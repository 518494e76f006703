-- ===== src/Command.antt =====
-- cmd/pulsebox/main.go: the configuration of the collector, the choice of the kube config, and what
-- the two servers answer. The parsing of flags and of durations, the signals and the listening are
-- left out: the parsed flags and the outcome of the lookups in the environment are given.
pub mod Ready
pub mod Lookup
use pulsebox.Base.{
  ℕ, String, Bool, true, false, List, [], ◌∷◌, Option, none, some, if◌then◌else◌, ◌==◌, not,
  string_eq,
}
use pulsebox.Base.Int.{pos, Time, Duration}
use pulsebox.Base.Float.{Float}
use pulsebox.Collector.Build.Roots.{Config}
use pulsebox.Collector.Access.{Collector}
use pulsebox.Metrics.{Sample, collect_metrics}
use pulsebox.Api.{Request, Answer, serve_request}

-- An environment variable, empty where it is not set, or a default.
unfoldable pub env : (String → String) → String → String → String
env getenv key default = let v = getenv key in if not (v == "") then v else default

-- The flags that are passed on.
pub record Flags : Type 0 where
  pub kubeconfig : String
  pub namespace : String
  pub pvc_grace : Duration

unfoldable pub collector_config : Flags → Config
collector_config f = record {
  namespace = f.namespace;
  resync_period = pos 600000000000;
  rebuild_debounce = pos 750000000;
  pvc_pending_grace = f.pvc_grace;
}

-- A path that is given, or `filepath.Join(home, ".kube", "config")`, which is not empty.
pub data KubePath : Type 0 where
  given : String → KubePath
  under_home : String → KubePath

-- What the configuration is built from, or the error.
pub data KubeConfig : Type 0 where
  in_cluster : KubeConfig
  from_file : KubePath → KubeConfig
  none_found : KubeConfig

-- The last two `if`s, on the home directory where there is one.
home_config : Option String → KubeConfig
home_config none = none_found
home_config (some home) = from_file (under_home home)

-- Whether `rest.InClusterConfig` succeeds, `$KUBECONFIG`, and what `os.UserHomeDir` gives.
unfoldable pub build_kube_config : Bool → String → Option String → String → KubeConfig
unfolding home_config
build_kube_config inside kubeconfig home explicit =
    if inside
    then in_cluster
    else let path = if explicit == "" then kubeconfig else explicit in
      if path == "" then home_config home else from_file (given path)

-- What the servers answer: a status with a text, a scrape, an answer of the API, or a file of the
-- dashboard.
pub data Reply (F : Type 0) : Type 0 where
  text : ℕ → String → Reply F
  scrape : List (Sample F) → Reply F
  api : Answer F → Reply F
  dashboard : Reply F
  no_page : Reply F

module _ {F : Type 0} where
  unfoldable pub readyz : Collector F → Reply F
  readyz c = if not c.synced then text 503 "syncing" else text 200 "ready"

  other_page : List String → Reply F
  other_page (p ∷ []) = if p == "healthz" then text 200 "ok" else dashboard
  other_page _ = dashboard

  -- `httpMux`: the API's patterns and `/healthz` come before `/`.
  unfoldable pub serve_dashboard : Time → Request → Collector F → Reply F
  unfolding serve_request other_page
  serve_dashboard now r c = elim (serve_request now r c) [
    | some answer ↦ api answer
    | none ↦ other_page r.path
  ]

module _ {F : Type 0} ⦃fl : Float F⦄ where
  -- `metricsMux`
  unfoldable pub serve_metrics : Time → List String → Collector F → Reply F
  unfolding readyz collect_metrics
  serve_metrics now (p ∷ []) c =
      if p == "metrics"
      then scrape (collect_metrics now c)
      else if p == "healthz"
      then text 200 "ok"
      else if p == "readyz"
      then readyz c
      else no_page
  serve_metrics now _ c = no_page
