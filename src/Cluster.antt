-- ===== src/Cluster.antt =====
-- pkg/cluster/config.go: what the operator reads of the configuration of the cluster.
use windows_machine_config_o.Common.{
  ℕ, String, Bool, false, Option, none, some, List, [], ◌∷◌, Map, insert, length, ltb, not, ◌==◌,
}

abbrev pub watched_environment_vars : List String
watched_environment_vars = "HTTP_PROXY" ∷ "HTTPS_PROXY" ∷ "NO_PROXY" ∷ []

-- The loop of `GetProxyVars`; `lookup_env` is `os.LookupEnv`.
unfoldable pub put_proxy_vars : (String → Option String) → List String → Map String → Map String
unfolding insert
put_proxy_vars lookup_env [] vars = vars
put_proxy_vars lookup_env (v ∷ vs) vars =
    put_proxy_vars lookup_env vs
      (elim (lookup_env v) [ none ↦ vars | some value ↦ insert v value vars ])

-- `GetProxyVars`, on what an earlier call has kept, if there was one.
unfoldable pub get_proxy_vars : Option (Map String) → (String → Option String) → Map String
unfolding put_proxy_vars
get_proxy_vars (some kept) lookup_env = kept
get_proxy_vars none lookup_env = put_proxy_vars lookup_env watched_environment_vars []

unfoldable pub is_proxy_enabled : Option (Map String) → (String → Option String) → Bool
unfolding get_proxy_vars
is_proxy_enabled kept lookup_env = ltb 0 (length (get_proxy_vars kept lookup_env))

-- `net.ParseCIDR`, and `cidr.Host` of a library with the text of the address.
pub record Cidr : Type 1 where
  pub Network : Type 0
  pub parse : String → Option Network
  pub host : Network → ℕ → Option String

module _ (cidr : Cidr) where
  -- `ValidateCIDR`.
  unfoldable pub validate_cidr : String → Bool
  validate_cidr s = elim (cidr.parse s) [ none ↦ false | some n ↦ not (s == "") ]

  -- `GetDNS`.
  unfoldable pub get_dns : String → Option String
  get_dns subnet = elim (cidr.parse subnet) [ none ↦ none | some n ↦ cidr.host n 10 ]
