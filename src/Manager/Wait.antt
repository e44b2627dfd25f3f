-- ===== src/Manager/Wait.antt =====
-- internal/manager/wait/wait.go: a store waits until the services that it needs are there.
use shopware_operator.Prelude.{
  ℕ, String, Bool, true, false, not, ◌&&◌, ◌||◌, Option, none, some, [], ◌∷◌, ◌==◌, if◌then◌else◌,
}
use shopware_operator.Prelude.Text.{concat}
use shopware_operator.Prelude.Assoc.{lookup}
use shopware_operator.Kube.{Reply, found, absent, failed, Secret, Env, Result, ok, err}
use shopware_operator.Api.State.{AppState, empty, wait, setup}
use shopware_operator.Api.Store.{
  SecretRef, StoreCondition, Store, store_add_condition, store_is_state,
}
use shopware_operator.Services.{DatabaseSpec, get_db_spec, test_sql_connection, test_s3_connection}
use shopware_operator.Manager.Base.{Base, Handled, error_status, ready_status}

-- The condition of a check: `ok` has the reason of success, `err` the reason of failure.
abbrev pub check_condition : ℕ → String → Result String → StoreCondition
check_condition now message (ok reason) = record {
  type = "waiting";
  last_transition_time = now;
  last_update_time = now;
  message = message;
  reason = reason;
  status = ready_status;
}
check_condition now message (err reason) = record {
  type = "waiting";
  last_transition_time = 0;
  last_update_time = now;
  message = message;
  reason = reason;
  status = error_status;
}

-- checkDatabaseServices
abbrev ping_result : Option String → Result String
ping_result (some e) = err e
ping_result none = ok "Database ping passed"

abbrev database_result : Env → Reply DatabaseSpec → Result String
database_result env (absent e) = err e
database_result env (failed e) = err e
database_result env (found spec) = ping_result (test_sql_connection env spec)

unfoldable pub check_database : Env → Store → Result String
check_database env store = database_result env (get_db_spec env store)

-- `_, ok := secret.Data[ref.Key]`, with the text of the error
abbrev key_error : String → SecretRef → String
key_error what ref = concat (
    "The " ∷ what ∷ " doesn't contain the specified key '" ∷ ref.key ∷ "' in the secret '"
    ∷ ref.name ∷ "'" ∷ [])

-- A secret that must hold a key: the value, or the reason why it does not.
abbrev keyed : String → String → SecretRef → Reply Secret → Result String
keyed absence what ref (absent e) = err (if absence == "" then e else absence)
keyed absence what ref (failed e) = err e
keyed absence what ref (found data') = elim (lookup ref.key data') [
  | none ↦ err (key_error what ref)
  | some v ↦ ok v
]

abbrev require : Env → Store → String → String → SecretRef → Result String
require env store absence what ref =
    keyed absence what ref (env.get_secret store.namespace ref.name)

abbrev pub and_then : Result String → (String → Result String) → Result String
and_then (err e) rest = err e
and_then (ok v) rest = rest v

-- checkFastlyRef
unfoldable pub check_fastly : Env → Store → Result String
check_fastly env store =
    and_then
      (require env store "Fastly serviceRef secret does not exist" "ServiceKeyRef"
        store.spec.fastly.service_ref)
      (λ _.
        and_then
          (require env store "Fastly tokenRef secret does not exist" "TokenKeyRef"
            store.spec.fastly.token_ref)
          (λ _. ok "Fastly ServiceRef/TokenRef present"))

-- checkOpensearch
unfoldable pub check_opensearch : Env → Store → Result String
check_opensearch env store =
    and_then
      (require env store "OpensearchRef secret does not exist" "SecretKeyRef"
        store.spec.opensearch_spec.password_secret_ref)
      (λ _. ok "OpensearchRef is present")

abbrev s3_result : Option String → Result String
s3_result (some e) = err e
s3_result none = ok "S3 connection test passed"

-- `errors.Wrapf(err, "get %v", nn)` of k8s.GetSecret
abbrev get_secret_wrapped : Env → String → String → Reply Secret
get_secret_wrapped env namespace name = wrapped (env.get_secret namespace name)
  where
    wrapped : Reply Secret → Reply Secret
    wrapped (found s) = found s
    wrapped (absent e) = absent (concat ("get " ∷ namespace ∷ "/" ∷ name ∷ ": " ∷ e ∷ []))
    wrapped (failed e) = failed (concat ("get " ∷ namespace ∷ "/" ∷ name ∷ ": " ∷ e ∷ []))

-- checkS3Services: first the secret access key, then the access key, then the connection
unfoldable pub check_s3 : Env → Store → Result String
check_s3 env store =
    let s3 = store.spec.s3_storage in
    and_then
      (keyed "" "SecretAccessKeyRef" s3.secret_access_key_ref
        (get_secret_wrapped env store.namespace s3.secret_access_key_ref.name))
      (λ secret_key.
        and_then
          (keyed "" "AccessKeyRef" s3.access_key_ref
            (get_secret_wrapped env store.namespace s3.access_key_ref.name))
          (λ key_id. s3_result (test_s3_connection env s3 key_id secret_key)))

abbrev pub verdict : Result String → AppState → AppState
verdict (ok _) next = next
verdict (err _) next = wait

-- `if enabled { if state := check(…); state != setup { next = state } }`: the check adds its
-- condition in any case.
abbrev pub run_check : Bool → ℕ → String → Result String → Store × AppState → Store × AppState
run_check false now message r s = s
run_check true now message r (store, next) =
    (store_add_condition (check_condition now message r) store, verdict r next)

abbrev pub database_enabled : Store → Bool
database_enabled s = not s.spec.disable_database_check

abbrev pub s3_enabled : Store → Bool
s3_enabled s = not s.spec.disable_s3_check && not (s.spec.s3_storage.access_key_ref.key == "")

abbrev pub fastly_enabled : Store → Bool
fastly_enabled s =
    not s.spec.disable_fastly_check
    && (not (s.spec.fastly.service_ref.name == "") && not (s.spec.fastly.service_ref.key == ""))

abbrev pub opensearch_enabled : Store → Bool
opensearch_enabled s = not s.spec.disable_opensearch_check && s.spec.opensearch_spec.enabled

-- The four checks; none of them reads what another one writes, which is the status.
unfoldable pub run_checks : Env → Store → Store × AppState
run_checks env s =
    run_check (opensearch_enabled s) env.now "Waiting for Opensearch ref" (check_opensearch env s) (
      run_check (fastly_enabled s) env.now "Waiting for fastly secret" (check_fastly env s) (
        run_check (s3_enabled s) env.now "Waiting for s3 connection" (check_s3 env s) (
          run_check (database_enabled s) env.now "Waiting for database connection"
            (check_database env s) (s, setup))))

-- StateHandler
unfoldable pub state_handler : Base → Env → Store → Handled
unfolding run_checks
state_handler base env s =
    if base.disable_service_checks || s.spec.disable_checks
    then record { store = s; next = setup; events = [] }
    else if store_is_state s (empty ∷ [])
    then record { store = s; next = wait; events = [] }
    else (let (checked, next) = run_checks env s in
        record { store = checked; next = next; events = [] })
