-- ===== src/Witnesses/Parts.antt =====
-- Runs of the parts that the state handlers use, on concrete inputs.
use shopware_operator.Prelude.{◌≤◌, ◌≡◌, refl, ◌⊎◌, true, false, [], ◌∷◌, length}
use shopware_operator.Prelude.Int.{pos, is_pos}
use shopware_operator.Samples.{env, job, key, watch_trigger}
use shopware_operator.Jobs.{
  is_done, has_errors, is_job_container_done, scan_statuses, scan_pods, scan_job, scan_containers,
  fall_back,
}
use shopware_operator.Jobs.Reports.{Completed, done_is_backed}
use shopware_operator.Trigger.{new_recorder}
use shopware_operator.Trigger.Pending.{adds, finishes, after_calls, pending_bounded}

done_is_backed_example :
    (is_pos (job (pos 0)).succeeded ≡ true) ⊎ Completed env "shopware-setup" (job (pos 0))
unfolding is_job_container_done scan_statuses scan_pods scan_job scan_containers fall_back is_done
    has_errors
done_is_backed_example =
    done_is_backed env "shopware-setup" (job (pos 0))
      (record { exit_code = pos 0; running = false }) refl refl refl

pending_bounded_example :
    length (
      (after_calls
          (λ d. "1s")
          new_recorder
          (adds 4 key watch_trigger ∷ finishes 5 key "" (pos 3) false ∷ [])).pending
        key)
    ≤ 20
pending_bounded_example =
    pending_bounded (λ d. "1s") (adds 4 key watch_trigger ∷ finishes 5 key "" (pos 3) false ∷ [])
      key
