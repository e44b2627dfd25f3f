-- ===== src/Deployments/Names.antt =====
-- internal/deployment/worker.go: the names of the worker deployments.
pub mod Cut
use Prim.Native.String.{◌++◌ as append, len, count}
use text.Mathlib.TextLemmas.{length-append, append_inj}
use text.Mathlib.TextPositions.{len-append}
use shopware_operator.Prelude.{
  ℕ, ◌+◌, ◌-◌, ◌≤◌, String, ◌≡◌, refl, ap, Bool, false, List, [], ◌∷◌, arith, leb, leb→le, ◌==◌,
  if◌then◌else◌, inl, inr, Bool-cases,
}
use shopware_operator.Prelude.Text.{concat}
use shopware_operator.Kube.{Env}
use shopware_operator.Api.Store.{Store}
use Cut.{to_lower, dash_for_underscore, first_bytes, trim_right, len-first_bytes, len-trim_right}

abbrev max_k8s_name_length : ℕ
max_k8s_name_length = 63

-- `fmt.Sprintf("%x", sha256.Sum256([]byte(name)))[:8]`
abbrev pub short_hash : Env → String → String
short_hash env name = first_bytes 8 (env.sha256_hex name)

-- truncateWithHash
unfoldable pub truncate_with_hash : Env → String → String
unfolding first_bytes trim_right
truncate_with_hash env name =
    if leb (len name) max_k8s_name_length
    then name
    else append (trim_right (first_bytes (max_k8s_name_length - 9) name))
        (append "-" (short_hash env name))

unfoldable pub worker_name : Store → String
worker_name store = concat (store.name ∷ "-store-worker" ∷ [])

-- The last steps of GetQueueWorkerDeploymentName, at the sanitized name.
abbrev sanitized_name : Env → Store → String → String → String
sanitized_name env store queue sanitized = truncate_with_hash env (
    concat (
      worker_name store
      ∷ "-"
      ∷ (if sanitized == queue
          then sanitized
          else concat (sanitized ∷ "-" ∷ short_hash env queue ∷ []))
      ∷ []))

-- GetQueueWorkerDeploymentName
unfoldable pub queue_worker_name : Env → Store → String → String
unfolding to_lower dash_for_underscore
queue_worker_name env store queue =
    if queue == ""
    then worker_name store
    else sanitized_name env store queue (dash_for_underscore (to_lower env queue))

-- A name of truncateWithHash has at most 63 bytes.
pub len-truncate_with_hash : (env : Env) (name : String) → len (truncate_with_hash env name) ≤ 63
unfolding truncate_with_hash
len-truncate_with_hash env name = elim (Bool-cases (leb (len name) max_k8s_name_length)) [
  | inl short ↦ rw short (leb→le (len name) 63 short)
  | inr long ↦
      rw (long, len-append, len-append)
        (omega (
          arith,
          len-first_bytes 8 (env.sha256_hex name),
          len-first_bytes 54 name,
          len-trim_right (first_bytes 54 name),
        ))
]

-- The name of a worker deployment of one queue has at most 63 bytes, whatever the queue and the store
-- are called.
pub len-queue_worker_name :
    (env : Env) (store : Store) (queue : String)
    → (queue == "") ≡ false
    → len (queue_worker_name env store queue) ≤ max_k8s_name_length
unfolding queue_worker_name
len-queue_worker_name env store queue h = rw h (len-truncate_with_hash env _)

-- The digest of a name begins with eight ASCII characters.
abbrev HasDigests : Env → Type 0
HasDigests env = (name : String) → count (short_hash env name) ≡ 8

count-dash : (s h : String) → count (append s (append "-" h)) ≡ count s + (1 + count h)
count-dash s h = rw (length-append, length-append)

suffix_cancel :
    (s t g h : String)
    → count g ≡ 8
    → count h ≡ 8
    → append s (append "-" g) ≡ append t (append "-" h)
    → g ≡ h
suffix_cancel s t g h eg eh e =
    let stems : count s ≡ count t =
      omega (arith, count-dash s g, count-dash t h, ap count e, eg, eh) in
    (append_inj (append_inj e stems).1 refl).1

-- Of two names that are too long, truncateWithHash gives the same only if the first eight characters
-- of their digests are the same.
pub truncate_with_hash_collision :
    (env : Env) (a b : String)
    → HasDigests env
    → leb (len a) max_k8s_name_length ≡ false
    → leb (len b) max_k8s_name_length ≡ false
    → truncate_with_hash env a ≡ truncate_with_hash env b
    → short_hash env a ≡ short_hash env b
unfolding truncate_with_hash
truncate_with_hash_collision env a b digests long_a long_b e =
    suffix_cancel (trim_right (first_bytes 54 a)) (trim_right (first_bytes 54 b)) (short_hash env a)
      (short_hash env b) (digests a) (digests b) (rw (long_a, long_b) at e)
