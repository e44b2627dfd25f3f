-- ===== src/Queues/Documents.antt =====
-- internal/deployment/queue.go, extractStatsDocument: the search for the document of statistics in the output of
-- the command. The decoder of encoding/json is a parameter.
use Prim.Native.Char.{Char, code, len_utf8}
use Prim.Native.String.{[], ◌∷◌, count, ◌++◌ as append}
use text.Mathlib.TextLemmas.{length-cons, nil-append, cons-append}
use shopware_operator.Prelude.{
  ℕ, zero, suc, ◌-◌, ◌≤◌, ◌<◌, String, ◌≡◌, refl, ◌⊎◌, Bool, true, false, not, Option, none, some,
  List, arith, ◌==◌, eqb, if◌then◌else◌, inl, inr, Bool-cases, Option-cases, eq_of_some-eq,
}
use shopware_operator.Prelude.Int.{ℤ}
use shopware_operator.Api.Container.{value_or}

-- An element of the list of transports
pub record Item : Type 0 where
  pub name : String
  pub transport : String
  pub count : Option ℤ
  pub size : Option ℤ

-- The two counts of a transport that is an object
pub record Counts : Type 0 where
  pub count : Option ℤ
  pub size : Option ℤ

-- What the code asks of encoding/json. The first is a new decoder on the text: the first value and
-- `InputOffset()` after it. The others are `json.Unmarshal` into a struct or a map.
pub record Json : Type 0 where
  pub decode : String → Option (String × ℕ)
  pub probe : String → Option String
  pub wrapper : String → Option (String × List String)
  pub items : String → Option (List Item)
  pub objects : String → Option (List (String × Counts))
  pub counts : String → Option (List (String × ℤ))
  -- the white space beyond Latin-1, by the tables of package unicode
  pub is_space_rune : Char → Bool

-- `raw[start:]` at the index of the next '{'
unfoldable from_brace : String → Option String
from_brace [] = none
from_brace (c ∷ s) = let rest = from_brace s in if eqb (code c) b'{' then some (c ∷ s) else rest

-- `raw[n:]`
unfoldable drop_bytes : ℕ → String → String
drop_bytes n [] = []
drop_bytes n (c ∷ s) = let rest = drop_bytes (n - len_utf8 c) s in if eqb n 0 then c ∷ s else rest

-- hasTransports
abbrev pub has_transports : Json → String → Bool
has_transports json document = elim (json.probe document) [ none ↦ false | some t ↦ not (t == "") ]

-- The body of the loop of extractStatsDocument at the next brace, given the rounds that follow
abbrev after_decode : Json → (String → Option String) → String → Option (String × ℕ) → Option String
after_decode json again start none = again (drop_bytes 1 start)
after_decode json again start (some (document, offset)) =
    if has_transports json document then some document else again (drop_bytes offset start)

abbrev at_brace : Json → String → (String → Option String) → Option String → Option String
at_brace json raw again none = some raw
at_brace json raw again (some start) = after_decode json again start (json.decode start)

-- The loop from a suffix of the input, at most as many rounds as the fuel, and `none` if that was too few
unfoldable pub extract_from : Json → String → ℕ → String → Option String
unfolding from_brace drop_bytes
extract_from json raw zero s = none
extract_from json raw (suc fuel) s =
    at_brace json raw (λ rest. extract_from json raw fuel rest) (from_brace s)

-- extractStatsDocument
unfoldable pub extract_stats_document : Json → String → String
unfolding extract_from
extract_stats_document json raw = value_or (extract_from json raw (suc (count raw)) raw) raw

-- `InputOffset` is behind the value that was decoded, which is not empty.
abbrev Advances : Json → Type 0
Advances json =
    (s document : String) (offset : ℕ) → json.decode s ≡ some (document, offset) → 1 ≤ offset

count-drop_bytes : (n : ℕ) (s : String) → count (drop_bytes n s) ≤ count s
unfolding drop_bytes
count-drop_bytes n [] = omega arith
count-drop_bytes n (c ∷ s) = elim (Bool-cases (eqb n 0)) [
  | inl all ↦ rw all (omega arith)
  | inr part ↦ rw (part, length-cons c s) (omega (arith, count-drop_bytes (n - len_utf8 c) s))
]

-- Something is dropped of what begins with a brace.
count-from_brace :
    (n : ℕ) (s start : String)
    → 1 ≤ n
    → from_brace s ≡ some start
    → count (drop_bytes n start) < count s
unfolding from_brace drop_bytes
count-from_brace n [] start h e = absurd (cc e)
count-from_brace n (c ∷ s) start h e = elim (Bool-cases (eqb (code c) b'{')) [
  | inl brace ↦
      let whole : c ∷ s ≡ start = eq_of_some-eq (rw brace at e) in
      let part : eqb n 0 ≡ false = ground arith in
      rw (← whole, part, length-cons c s) (omega (arith, count-drop_bytes (n - len_utf8 c) s))
  | inr other ↦
      let rest : from_brace s ≡ some start = rw other at e in
      rw (length-cons c s) (omega (arith, count-from_brace n s start h rest))
]

module _ (json : Json) (advances : Advances json) (raw : String) where
  -- A result of the loop: the input, or a document with transports.
  abbrev Extracted : Option String → Type 0
  Extracted o = (r : String) × (o ≡ some r) × ((r ≡ raw) ⊎ (has_transports json r ≡ true))

  extract_from_total :
      (fuel : ℕ) (s : String) → count s < fuel → Extracted (extract_from json raw fuel s)
  unfolding extract_from
  extract_from_total zero s h = absurd (omega arith)
  extract_from_total (suc fuel) s h = elim (Option-cases (from_brace s)) [
    | inl nothing ↦ rw nothing (raw, refl, inl refl)
    | inr (start, begins) ↦
        let shorter : (n : ℕ) → 1 ≤ n → count (drop_bytes n start) < fuel =
          λ n m. omega (arith, count-from_brace n s start m begins, h) in
        elim (Option-cases (json.decode start)) [
          | inl bad ↦
              rw (begins, bad)
                (extract_from_total fuel (drop_bytes 1 start) (shorter 1 (omega arith)))
          | inr ((document, offset), good) ↦ elim (Bool-cases (has_transports json document)) [
            | inl has ↦ rw (begins, good, has) (document, refl, inr has)
            | inr lacks ↦
                rw (begins, good, lacks)
                  (extract_from_total fuel (drop_bytes offset start)
                    (shorter offset (advances start document offset good)))
          ]
        ]
  ]

  -- The loop of extractStatsDocument ends: with one round more than the input has characters it has a
  -- result, if the decoder gets ahead on what it decodes. The result is the input as it is or a document
  -- with transports.
  pub extract_stats_document_total :
      (extract_from json raw (suc (count raw)) raw ≡ some (extract_stats_document json raw))
      × ((extract_stats_document json raw ≡ raw)
          ⊎ (has_transports json (extract_stats_document json raw) ≡ true))
  unfolding extract_stats_document
  extract_stats_document_total =
      let (r, e, kind) = extract_from_total (suc (count raw)) raw (omega arith) in rw e (refl, kind)

-- No brace is in the text.
abbrev NoBrace : String → Type 0
NoBrace [] = Unit
NoBrace (c ∷ s) = (eqb (code c) b'{' ≡ false) × NoBrace s

from_brace-append :
    (noise s : String)
    → NoBrace noise
    → from_brace s ≡ some s
    → from_brace (append noise s) ≡ some s
unfolding from_brace
from_brace-append [] s h e = rw nil-append e
from_brace-append (c ∷ noise) s h e =
    rw (cons-append c noise s, h.0) (from_brace-append noise s h.1 e)

-- Output without a brace in front of a document with transports is skipped, and what follows the
-- document does not matter.
extract_skips_noise :
    (json : Json) (noise s document : String) (offset : ℕ)
    → NoBrace noise
    → from_brace s ≡ some s
    → json.decode s ≡ some (document, offset)
    → has_transports json document ≡ true
    → extract_stats_document json (append noise s) ≡ document
unfolding extract_stats_document extract_from
extract_skips_noise json noise s document offset quiet begins good has =
    simp (from_brace-append noise s quiet begins, good, has)
