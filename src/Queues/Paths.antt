-- ===== src/Queues/Paths.antt =====
-- The path of a request: what the handler takes out of it (internal/metrics/queue_handler.go), and that it is what
-- the scaled objects ask for (internal/deployment/scaledobject.go).
use Prim.Native.Char.{Char, code}
use Prim.Native.String.{[], ◌∷◌, ◌++◌ as append}
use text.Mathlib.TextLemmas.{nil-append, cons-append, append-nil, append_assoc, cons-ne-nil}
use shopware_operator.Prelude.{
  ℕ, String, ◌≡◌, refl, ap, ◌∙◌, Bool, true, false, ◌&&◌, ◌||◌, Option, none, some, List, arith,
  ◌==◌, eqb, leb, All, eq_iff, if◌then◌else◌, inl, inr, Bool-cases,
}
use shopware_operator.Api.Container.{value_or}
use shopware_operator.Kube.{Env}
use shopware_operator.Api.Store.{Store}
use shopware_operator.Workloads.Services.{queue_path, worker_scaled_object}

abbrev is_slash : Char → Bool
is_slash c = eqb (code c) b'/'

-- `strings.CutPrefix`: what follows the prefix
unfoldable pub cut_prefix : String → String → Option String
cut_prefix [] s = some s
cut_prefix (p ∷ ps) [] = none
cut_prefix (p ∷ ps) (c ∷ s) =
    let rest = cut_prefix ps s in if eqb (code p) (code c) then rest else none

-- `strings.TrimPrefix`
abbrev pub trim_prefix : String → String → String
trim_prefix prefix s = value_or (cut_prefix prefix s) s

-- `strings.Trim(s, "/")`
unfoldable trim_left : String → String
trim_left [] = []
trim_left (c ∷ s) = let rest = trim_left s in if is_slash c then rest else c ∷ s

unfoldable pub trim_right : String → String
trim_right [] = []
trim_right (c ∷ s) = let t = trim_right s in if is_slash c && (t == "") then [] else c ∷ t

abbrev trim : String → String
trim s = trim_right (trim_left s)

-- `strings.Split(s, "/")`
abbrev put_first : Char → List String → List String
put_first c List.[] = List.◌∷◌ (c ∷ []) List.[]
put_first c (List.◌∷◌ p ps) = List.◌∷◌ (c ∷ p) ps

unfoldable pub split : String → List String
split [] = List.◌∷◌ [] List.[]
split (c ∷ s) = let rest = split s in if is_slash c then List.◌∷◌ [] rest else put_first c rest

abbrev pub is_empty : String → Bool
is_empty s = s == ""

-- `parts[0], parts[1], parts[2]`, if there are three parts and none is empty
abbrev three_parts : List String → Option (String × String × String)
three_parts (List.◌∷◌ a (List.◌∷◌ b (List.◌∷◌ c List.[]))) =
    if is_empty a || is_empty b || is_empty c then none else some (a, b, c)
three_parts _ = none

-- The parts of the path of a request
unfoldable pub request_parts : String → Option (String × String × String)
unfolding cut_prefix trim_left trim_right split
request_parts path = three_parts (split (trim (trim_prefix "/api/queue/" path)))

-- A text that is not empty and has no slash.
abbrev NoSlash : String → Type 0
NoSlash [] = Unit
NoSlash (c ∷ s) = (is_slash c ≡ false) × NoSlash s

abbrev pub IsPart : String → Type 0
IsPart s = (is_empty s ≡ false) × NoSlash s

eqb_refl : (n : ℕ) → eqb n n ≡ true
eqb_refl n = ground arith

cut_prefix-append : (p s : String) → cut_prefix p (append p s) ≡ some s
unfolding cut_prefix
cut_prefix-append [] s = rw nil-append refl
cut_prefix-append (c ∷ p) s = rw (cons-append c p s, eqb_refl (code c)) (cut_prefix-append p s)

pub trim_prefix-append : (p s : String) → trim_prefix p (append p s) ≡ s
trim_prefix-append p s = ap (λ o. value_or o (append p s)) (cut_prefix-append p s)

split_part : (s : String) → NoSlash s → split s ≡ List.◌∷◌ s List.[]
unfolding split
split_part [] h = refl
split_part (c ∷ s) h = rw (h.0, split_part s h.1) refl

split_slash : (t : String) → split (append "/" t) ≡ List.◌∷◌ [] (split t)
unfolding split
split_slash t = rw (cons-append _ [] t, nil-append) refl

split-append : (s t : String) → NoSlash s → split (append s (append "/" t)) ≡ List.◌∷◌ s (split t)
unfolding split
split-append [] t h = rw nil-append (split_slash t)
split-append (c ∷ s) t h = rw (cons-append c s (append "/" t), h.0, split-append s t h.1) refl

trim_left_part : (a t : String) → IsPart a → trim_left (append a t) ≡ append a t
unfolding trim_left
trim_left_part [] t h = absurd (ground arith)
trim_left_part (c ∷ a) t h = rw (cons-append c a t, h.1.0) refl

cons_filled : (c : Char) (s : String) → is_empty (c ∷ s) ≡ false
cons_filled c s = elim (Bool-cases (is_empty (c ∷ s))) [
  | inl e ↦ absurd (cons-ne-nil c s ((eq_iff (c ∷ s) "").0 e))
  | inr e ↦ e
]

-- A text that trim_right leaves as it is, and that is not empty.
abbrev IsTrimmed : String → Type 0
IsTrimmed s = (is_empty s ≡ false) × (trim_right s ≡ s)

append-IsTrimmed : (s t : String) → IsTrimmed t → IsTrimmed (append s t)
unfolding trim_right
append-IsTrimmed [] t h = rw nil-append h
append-IsTrimmed (c ∷ s) t h =
    rw (cons-append c s t, (append-IsTrimmed s t h).1, (append-IsTrimmed s t h).0)
      (cons_filled c (append s t), kept (is_slash c))
  where
    kept : (b : Bool) → (if b && false then [] else c ∷ append s t) ≡ c ∷ append s t
    kept true = refl
    kept false = refl

trim_right_part : (s : String) → NoSlash s → trim_right s ≡ s
unfolding trim_right
trim_right_part [] h = refl
trim_right_part (c ∷ s) h = rw (trim_right_part s h.1, h.0) refl

-- The parts of a path, each after a slash
unfoldable pub path_of : List String → String
path_of List.[] = ""
path_of (List.◌∷◌ p ps) = append "/" (append p (path_of ps))

-- A part that stands in a URL as it is: the unreserved characters of RFC 3986 only, and not one of the
-- parts that stand for a folder.
unfoldable pub is_unreserved : Char → Bool
is_unreserved c =
    let n = code c in
    (leb b'a' n && leb n b'z')
    || (leb b'A' n && leb n b'Z')
    || (leb b'0' n && leb n b'9')
    || eqb n b'-'
    || eqb n b'.'
    || eqb n b'_'
    || eqb n b'~'

unfoldable pub AllUnreserved : String → Type 0
AllUnreserved [] = Unit
AllUnreserved (c ∷ s) = (is_unreserved c ≡ true) × AllUnreserved s

abbrev pub IsPlain : String → Type 0
IsPlain s = (is_empty s ≡ false) × ((s == ".") ≡ false) × ((s == "..") ≡ false) × AllUnreserved s

abbrev pub AllPlain : List String → Type 0
AllPlain ps = All IsPlain ps

slash_reserved : (c : Char) → is_unreserved c ≡ true → is_slash c ≡ false
unfolding is_unreserved
slash_reserved c h = ground arith

AllUnreserved-NoSlash : (s : String) → AllUnreserved s → NoSlash s
unfolding AllUnreserved
AllUnreserved-NoSlash [] h = tt
AllUnreserved-NoSlash (c ∷ s) h = (slash_reserved c h.0, AllUnreserved-NoSlash s h.1)

IsPlain-IsPart : (s : String) → IsPlain s → IsPart s
IsPlain-IsPart s (filled, _, _, plain) = (filled, AllUnreserved-NoSlash s plain)

pub request_parts_of :
    (namespace name queue : String)
    → IsPart namespace
    → IsPart name
    → IsPart queue
    → request_parts (queue_path namespace name queue) ≡ some (namespace, name, queue)
unfolding request_parts
request_parts_of namespace name queue n m q =
    rw
      (
        append-nil,
        trim_prefix-append "/api/queue/"
            (append namespace (append "/" (append name (append "/" queue)))),
        trim_left_part namespace (append "/" (append name (append "/" queue))) n,
        (append-IsTrimmed namespace (append "/" (append name (append "/" queue))) (
            append-IsTrimmed "/" (append name (append "/" queue)) (
              append-IsTrimmed name (append "/" queue)
                (append-IsTrimmed "/" queue (q.0, trim_right_part queue q.1))))).1,
        split-append namespace (append name (append "/" queue)) n.1,
        split-append name queue m.1,
        split_part queue q.1,
        n.0,
        m.0,
        q.0,
      )
      refl

prefixed :
    (a b c d e x : String)
    → append a (append b (append c (append d (append e x))))
      ≡ append (append a (append b (append c (append d e)))) x
prefixed a b c d e x = rw (append_assoc, append_assoc, append_assoc, append_assoc) refl

path_of-queue :
    (namespace name queue : String)
    → path_of (
        List.◌∷◌ "api"
          (List.◌∷◌ "queue" (List.◌∷◌ namespace (List.◌∷◌ name (List.◌∷◌ queue List.[])))))
      ≡ queue_path namespace name queue
unfolding path_of
path_of-queue namespace name queue =
    prefixed "/" "api" "/" "queue" "/"
      (append namespace (append "/" (append name (append "/" (append queue "")))))

-- What a server reads as the path of a request (r.URL.Path, after its router) to a URL, for URLs that start
-- with a base: a path of plain parts is what stands after the base.
abbrev pub ReadsPlain : (String → String) → String → Type 0
ReadsPlain read_path base =
    (ps : List String) → AllPlain ps → read_path (append base (path_of ps)) ≡ path_of ps

-- The handler takes out of the path of a request to the trigger URL of a scaled object the namespace of the
-- store, the name of the store and the queue that the object was made of, if each of these is plain: it
-- is not empty, not one of the parts . and .., and of unreserved characters only. How a server reads the
-- path of such a URL is a hypothesis.
pub request_parts-trigger_url :
    (read_path : String → String) (env : Env) (url : String) (store : Store) (queue : String)
    → ReadsPlain read_path url
    → IsPlain store.namespace
    → IsPlain store.name
    → IsPlain queue
    → request_parts (read_path (worker_scaled_object env url store queue).trigger_url)
      ≡ some (store.namespace, store.name, queue)
unfolding worker_scaled_object path_of AllUnreserved is_unreserved
request_parts-trigger_url read_path env url store queue reads n m q =
    let ps = List.◌∷◌ "api" (
      List.◌∷◌ "queue" (List.◌∷◌ store.namespace (List.◌∷◌ store.name (List.◌∷◌ queue List.[])))) in
    let path = path_of-queue store.namespace store.name queue in
    let plain : AllPlain ps =
      ((refl, refl, refl, ground arith), ((refl, refl, refl, ground arith), (n, (m, (q, tt))))) in
    let read : read_path (append url (queue_path store.namespace store.name queue))
        ≡ queue_path store.namespace store.name queue =
      rw (← path) (reads ps plain) in
    ap (λ u. request_parts (read_path (append url u))) (append-nil _)
    ∙ ap request_parts read
    ∙ request_parts_of store.namespace store.name queue (IsPlain-IsPart store.namespace n)
        (IsPlain-IsPart store.name m) (IsPlain-IsPart queue q)
