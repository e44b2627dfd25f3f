-- ===== src/Cluster/Requests/Deletion.antt =====
-- The loop of EnsureObjectWithHash that waits for the end of a job's deletion.
use shopware_operator.Prelude.{
  ℕ, zero, suc, ◌+◌, ◌≤◌, String, ◌≡◌, refl, false, [], ◌∷◌, arith, eqb, if◌then◌else◌,
}
use shopware_operator.Prelude.Text.{concat}
use shopware_operator.Kube.{Reply, found, absent, failed, ok, err}
use shopware_operator.Cluster.{Object}
use shopware_operator.Cluster.Requests.{wait_deleted}

wait_deleted-bounded :
    (polls : ℕ → Reply Object) (text : String) (i left : ℕ)
    → i + left ≤ 10
    → (n : ℕ) × (wait_deleted polls text i left ≡ ok n) × (n ≤ i + left)
unfolding wait_deleted
wait_deleted-bounded polls text i zero h = (i, refl, omega arith)
wait_deleted-bounded polls text i (suc left) h =
    let (n, e, b) = wait_deleted-bounded polls text (suc i) left (omega arith) in
    by_answer (polls i) n e b
  where
    early : eqb i 10 ≡ false
    early = ground arith

    by_answer :
        (a : Reply Object) (n : ℕ)
        → wait_deleted polls text (suc i) left ≡ ok n
        → n ≤ suc i + left
        → (m : ℕ) × ((elim a [
          | absent e ↦ ok (suc i)
          | failed e ↦
              (if eqb i 10
                then err (concat (text ∷ ": " ∷ e ∷ []))
                else wait_deleted polls text (suc i) left)
          | found o ↦ wait_deleted polls text (suc i) left
        ])
            ≡ ok m)
          × (m ≤ i + suc left)
    by_answer (absent t) n e b = (suc i, refl, omega arith)
    by_answer (failed t) n e b = (n, rw early e, omega arith)
    by_answer (found o) n e b = (n, e, omega arith)

-- The wait for the end of a job's deletion ends after at most ten polls and without an error, whatever
-- the polls are answered.
pub wait_deleted_ends :
    (polls : ℕ → Reply Object) (text : String)
    → (n : ℕ) × (wait_deleted polls text 0 10 ≡ ok n) × (n ≤ 10)
wait_deleted_ends polls text = wait_deleted-bounded polls text 0 10 (omega arith)
