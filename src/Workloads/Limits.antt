-- ===== src/Workloads/Limits.antt =====
-- The process limits of PHP-FPM, the environment of the containers and their security contexts.
pub mod Variables
pub mod Secured
use shopware_operator.Prelude.{
  ℕ, ◌*◌, ◌/◌, ◌≤◌, ◌≡◌, ◌↔◌, arith, eqb, inl, inr, Bool-cases, if◌then◌else◌,
}
use shopware_operator.Api.Container.{ContainerSpec}
use shopware_operator.Workloads.Containers.{PoolLimits, pool_limits, memory_limit, memory_limit_mib}
use shopware_operator.Workloads.Deployments.{php_memory_limit}

-- PHP-FPM starts with such limits: there is a spare server at least, as many are started as are to be
-- spare at least and at most, and no more than there may be children.
abbrev pub Starts : PoolLimits → Type 0
Starts l =
    (1 ≤ l.min_spare_servers)
    × (l.min_spare_servers ≤ l.start_servers)
    × (l.start_servers ≤ l.max_spare_servers)
    × (l.max_spare_servers ≤ l.max_children)

-- The limits that GetCalculatedPHPFPMValues calculates are ones that PHP-FPM starts with if and only if
-- the memory limit is 240 MiB or more; and with 80 MiB each the children fit into the memory limit.
pub pool_limits-Starts_iff :
    (memory_limit_mib : ℕ)
    → (Starts (pool_limits memory_limit_mib) ↔ (240 ≤ memory_limit_mib))
      × ((pool_limits memory_limit_mib).max_children * 80 ≤ memory_limit_mib)
unfolding pool_limits
pool_limits-Starts_iff m = (((λ h. omega arith), (λ h. omega arith)), omega arith)

-- The memory limit that a worker gives PHP is at most nine tenths of its container's.
php_memory_limit-le :
    (c : ContainerSpec) → php_memory_limit c * 10 * (1024 * 1024) ≤ memory_limit c.resources * 9
php_memory_limit-le c = ground arith
