-- ===== src/MemoryData/Normal.antt =====
-- The sources that writes of services/memory_data.py resolve, and how list filters read them.
use mathlib.Core.Path.{subst}
use hojo_memory_engine.Prelude.{
  ◌≡◌, refl, String, true, Option, none, some, List, [], ◌∷◌, All, contains, ◌==◌, string_eq,
  eq_iff, arith, if-intro, inl, inr, Bool-cases,
}
use hojo_memory_engine.Text.{strip, lstrip, rstrip, starts_with}
use hojo_memory_engine.Result.{Result, ok, err, ◌>>=◌}
use hojo_memory_engine.Services.{Services}
use hojo_memory_engine.MemoryData.Sources.{
  valid_memory_sources, normalize_memory_source, infer_memory_source_from_parse_rule,
  resolve_write_memory_source, or_inferred,
}

pub contains-All :
    (P : String → Type 0) (xs : List String) (t : String) → All P xs → contains t xs ≡ true → P t
contains-All P [] t all h = cc
contains-All P (x ∷ xs) t all h = elim (Bool-cases (x == t)) [
  | inl e ↦ rw (← (eq_iff x t).0 e) all.0
  | inr e ↦ contains-All P xs t all.1 (ground arith)
]

-- `str.lower` leaves the names of the sources, which are in lower case, as they are.
abbrev pub KeepsNames : Services → Type 0
KeepsNames sv = (t : String) → contains t valid_memory_sources ≡ true → sv.lower t ≡ t

abbrev pub IsNormal : Option String → Type 0
IsNormal none = Unit
IsNormal (some t) = contains t valid_memory_sources ≡ true

abbrev IfOk : Result (Option String) → Type 0
IfOk (err e) = Unit
IfOk (ok o) = IsNormal o

or_inferred-IfOk :
    (r : Result (Option String)) (inferred : Option String)
    → IfOk r
    → IsNormal inferred
    → IfOk (r >>= λ explicit. ok (or_inferred explicit inferred))
or_inferred-IfOk (err e) inferred h k = tt
or_inferred-IfOk (ok none) inferred h k = k
or_inferred-IfOk (ok (some s)) inferred h k = h

module _ (sv : Services) where
  normalize_memory_source-IfOk : (source : Option String) → IfOk (normalize_memory_source sv source)
  unfolding normalize_memory_source
  normalize_memory_source-IfOk none = tt
  normalize_memory_source-IfOk (some s) =
      let normalized = sv.lower (strip s) in
      if-intro IfOk (normalized == "") _ _ (λ _. tt)
        λ _. if-intro IfOk (contains normalized valid_memory_sources) _ _ (λ e. e) λ _. tt

  infer-IsNormal : (rule : Option String) → IsNormal (infer_memory_source_from_parse_rule sv rule)
  unfolding infer_memory_source_from_parse_rule
  infer-IsNormal none = tt
  infer-IsNormal (some rule) =
      if-intro IsNormal (strip rule == "") _ _ (λ _. tt)
        λ _.
          if-intro IsNormal (starts_with (sv.lower (strip rule)) "schedule_") _ _ (λ _. refl)
            λ _.
              if-intro IsNormal (starts_with (sv.lower (strip rule)) "meeting_") _ _ (λ _. refl)
                λ _. tt

  resolved-IsNormal :
      (source rule : Option String) {o : Option String}
      → resolve_write_memory_source sv source rule ≡ ok o
      → IsNormal o
  unfolding resolve_write_memory_source
  resolved-IsNormal source rule {o} e = subst IfOk e (
      or_inferred-IfOk (normalize_memory_source sv source)
        (infer_memory_source_from_parse_rule sv rule) (normalize_memory_source-IfOk source)
        (infer-IsNormal rule))

  module _ (h : KeepsNames sv) where
    abbrev Stays : String → Type 0
    Stays t = normalize_memory_source sv (some t) ≡ ok (some t)

    names_stay : All Stays valid_memory_sources
    unfolding normalize_memory_source strip lstrip rstrip
    names_stay = (
      rw (h "dialogue" refl) refl,
      (
        rw (h "knowledge" refl) refl,
        (rw (h "meeting" refl) refl, (rw (h "schedule" refl) refl, tt)),
      ),
    )

    -- A source that was resolved is resolved to itself.
    normal_stays : (o : Option String) → IsNormal o → normalize_memory_source sv o ≡ ok o
    unfolding normalize_memory_source
    normal_stays none n = refl
    normal_stays (some t) n = contains-All Stays valid_memory_sources t names_stay n

    pub resolved_stays :
        (source rule : Option String) {o : Option String}
        → resolve_write_memory_source sv source rule ≡ ok o
        → normalize_memory_source sv o ≡ ok o
    resolved_stays source rule {o} e = normal_stays o (resolved-IsNormal source rule {o = o} e)
