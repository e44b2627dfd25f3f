-- ===== src/Workloads/Jobs/Images.antt =====
-- How long the name of a migration job is.
use Prim.Native.String.{len}
use text.Mathlib.TextPositions.{len-append}
use shopware_operator.Prelude.{◌≤◌, String, ◌≡◌, ◌↔◌, arith}
use shopware_operator.Kube.{Env}
use shopware_operator.Api.Store.{Store}
use shopware_operator.Manager.Jobs.{migrate_job_name}
use shopware_operator.Workloads.Jobs.{migration_job}

-- The name of a migration job has at most 63 bytes, as many as the name of a job may have, if and only if
-- the name of the store has at most 22, if a digest has 32 hexadecimal digits.
pub len-migration_job_iff :
    (env : Env) (url : String) (store : Store)
    → len (env.md5_hex store.status.current_image_tag) ≡ 32
    → (len (migration_job env url store).0.name ≤ 63) ↔ (len store.name ≤ 22)
unfolding migration_job migrate_job_name
len-migration_job_iff env url store h = rw (len-append, len-append, len-append, h) (omega arith)
