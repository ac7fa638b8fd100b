-- ===== src/Config/Defaults.antt =====
-- pkg/config/config.go: the defaults.
use event_reactor.Base.{ℕ, ◌≡◌, ◌≢◌, ◌↔◌, refl, subst, arith, String, eq_iff}
use event_reactor.Base.Int.{ℤ, pos, negsuc}
use event_reactor.Config.{ServerConfig, apply_defaults, or_default, or_port}

or_default-ne : (dflt s : String) → dflt ≢ "" → or_default dflt s ≢ ""
or_default-ne dflt s h = ground (arith, eq_iff s "")

or_default_of_ne : (dflt s : String) → s ≢ "" → or_default dflt s ≡ s
or_default_of_ne dflt s h = ground (arith, eq_iff s "")

or_port-ne : (n : ℕ) (p : ℤ) → n ≢ 0 → or_port n p ≢ pos 0
or_port-ne n (pos m) h = ground arith
or_port-ne n (negsuc m) h = ground arith

or_port_of_ne : (n : ℕ) (p : ℤ) → p ≢ pos 0 → or_port n p ≡ p
or_port_of_ne n (pos m) h = ground arith
or_port_of_ne n (negsuc m) h = refl

-- Every setting that has a default is set.
pub record IsComplete (cfg : ServerConfig) : Type 0 where
  pub port : cfg.server.port ≢ pos 0
  pub metrics_port : cfg.server.metrics_port ≢ pos 0
  pub liveness : cfg.server.health_check.liveness ≢ ""
  pub readiness : cfg.server.health_check.readiness ≢ ""
  pub level : cfg.observability.logging.level ≢ ""
  pub format : cfg.observability.logging.format ≢ ""

-- After the defaults every such setting is set.
pub apply_defaults-IsComplete : (cfg : ServerConfig) → IsComplete (apply_defaults cfg)
unfolding apply_defaults
apply_defaults-IsComplete cfg = record {
  port = or_port-ne 8080 cfg.server.port (λ e. omega arith);
  metrics_port = or_port-ne 9090 cfg.server.metrics_port (λ e. omega arith);
  liveness =
      or_default-ne "/health/live" cfg.server.health_check.liveness
        (ground (arith, eq_iff "/health/live" ""));
  readiness =
      or_default-ne "/health/ready" cfg.server.health_check.readiness
        (ground (arith, eq_iff "/health/ready" ""));
  level = or_default-ne "info" cfg.observability.logging.level (ground (arith, eq_iff "info" ""));
  format = or_default-ne "json" cfg.observability.logging.format (ground (arith, eq_iff "json" ""));
}

-- The defaults change nothing in a configuration that sets all of them.
pub apply_defaults_of_IsComplete : (cfg : ServerConfig) → IsComplete cfg → apply_defaults cfg ≡ cfg
unfolding apply_defaults
apply_defaults_of_IsComplete cfg c = rw (
  or_port_of_ne 8080 cfg.server.port c.port,
  or_port_of_ne 9090 cfg.server.metrics_port c.metrics_port,
  or_default_of_ne "/health/live" cfg.server.health_check.liveness c.liveness,
  or_default_of_ne "/health/ready" cfg.server.health_check.readiness c.readiness,
  or_default_of_ne "info" cfg.observability.logging.level c.level,
  or_default_of_ne "json" cfg.observability.logging.format c.format,
)

-- Every setting that has a default is set afterwards, exactly a configuration that sets all of them
-- is left as it is, and applying the defaults a second time changes nothing.
pub apply_defaults_idem :
    (cfg : ServerConfig)
    → IsComplete (apply_defaults cfg)
      × (IsComplete cfg ↔ (apply_defaults cfg ≡ cfg))
      × (apply_defaults (apply_defaults cfg) ≡ apply_defaults cfg)
apply_defaults_idem cfg = (
  apply_defaults-IsComplete cfg,
  (apply_defaults_of_IsComplete cfg, λ same. subst IsComplete same (apply_defaults-IsComplete cfg)),
  apply_defaults_of_IsComplete (apply_defaults cfg) (apply_defaults-IsComplete cfg),
)
