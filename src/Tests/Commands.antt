-- ===== src/Tests/Commands.antt =====
-- The servers of the command at the start, and its lookups.
use pulsebox.Base.{ℕ, [], ◌∷◌, false, some, ◌≡◌, refl}
use pulsebox.Base.Int.{pos}
use pulsebox.Base.Fixed.{fixed}
use pulsebox.Collector.Stream.{snapshot, no_graph}
use pulsebox.Collector.Access.{Collector, new_collector}
use pulsebox.Collector.Access.Life.{made, caches_change}
use pulsebox.Tests.Builds.{cart}
use pulsebox.Command.{
  from_file, given, Flags, env, collector_config, build_kube_config, serve_metrics, serve_dashboard,
  readyz,
}
use pulsebox.Command.Ready.{status_of, ready_request, unready-bare}

abbrev flags : Flags
flags = record { kubeconfig = ""; namespace = ""; pvc_grace = pos 0 }

abbrev fresh : Collector ℕ
fresh = new_collector (collector_config flags)

-- A pod has been listed, and `Start` still waits.
abbrev listed : Collector ℕ
listed = record fresh { caches = record fresh.caches { pods = cart ∷ [] }; events = [] }

unready-bare_example :
    (status_of (serve_dashboard (pos 1) ready_request listed) ≡ 503)
    × (snapshot listed.stream ≡ no_graph)
unfolding serve_metrics readyz new_collector
unready-bare_example =
    unready-bare fixed (collector_config flags) (pos 1)
      (caches_change made (record fresh.caches { pods = cart ∷ [] }) []) refl

-- A grace of 0 is replaced by the default.
grace_test : fresh.cfg.pvc_pending_grace ≡ pos 120000000000
unfolding new_collector collector_config
grace_test = refl

lookup_test : build_kube_config false "/k" (some "/home/me") "" ≡ from_file (given "/k")
unfolding build_kube_config
lookup_test = refl

env_test : env (λ k. "") "PULSEBOX_NAMESPACE" "x" ≡ "x"
unfolding env
env_test = refl
