-- ===== src/Command/Lookup.antt =====
-- main.go: the order in which `buildKubeConfig` looks for a configuration.
use pulsebox.Base.{
  String, Bool, List, [], ◌∷◌, Option, none, some, ◌≡◌, arith, ◌==◌, string_eq, if◌then◌else◌,
}
use pulsebox.Command.{
  given, under_home, KubeConfig, in_cluster, from_file, none_found, home_config, build_kube_config,
}

-- A candidate that counts if a test holds.
abbrev pub unless_empty : String → Option KubeConfig
unless_empty path = if path == "" then none else some (from_file (given path))

abbrev pub home_candidate : Option String → Option KubeConfig
home_candidate none = none
home_candidate (some home) = some (from_file (under_home home))

-- The first candidate of a list.
abbrev pub first_of : List (Option KubeConfig) → KubeConfig
first_of [] = none_found
first_of (none ∷ rest) = first_of rest
first_of (some c ∷ rest) = c

-- `buildKubeConfig` takes the first of the configuration inside the cluster, the flag's path,
-- `$KUBECONFIG` and the file under the home directory, and fails if there is none of them.
pub build_kube_config-first :
    (inside : Bool) (kubeconfig explicit : String) (home : Option String)
    → build_kube_config inside kubeconfig home explicit
      ≡ first_of (
          (if inside then some in_cluster else none)
          ∷ unless_empty explicit
          ∷ unless_empty kubeconfig
          ∷ home_candidate home
          ∷ [])
unfolding build_kube_config home_config
build_kube_config-first inside kubeconfig explicit home = ground arith
