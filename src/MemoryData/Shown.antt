-- ===== src/MemoryData/Shown.antt =====
-- The list filters of integrations/mongo_store.py select by the source and the dimension that
-- constants/user_memory_item.py gives a document.
use hojo_memory_engine.Prelude.{
  ◌≡◌, refl, String, true, false, not, ◌&&◌, Bool, some, List, All, contains, ◌==◌, string_eq, inl,
  inr, Bool-cases,
}
use hojo_memory_engine.Text.{strip, lstrip, rstrip}
use hojo_memory_engine.Services.{Services}
use hojo_memory_engine.MemoryData.Sources.{
  kb_memory_fields, schedule_memory_fields, meeting_memory_fields, valid_memory_sources,
  resolve_default_source, resolve_memory_source,
}
use hojo_memory_engine.MemoryData.Store.{
  StoredSource, absent, null_source, given, given_source, MemoryDoc,
}
use hojo_memory_engine.MemoryData.Filters.{source_matches, source_filter_clause}
use hojo_memory_engine.MemoryData.Normal.{KeepsNames, IsNormal, contains-All}

abbrev pub is_null_source : StoredSource → Bool
is_null_source null_source = true
is_null_source _ = false

abbrev Apart : List String → List String → Type 0
Apart xs ys = All (λ t. contains t ys ≡ false) xs

kb_schedule : Apart kb_memory_fields schedule_memory_fields
kb_schedule = (refl, (refl, (refl, tt)))

kb_meeting : Apart kb_memory_fields meeting_memory_fields
kb_meeting = (refl, (refl, (refl, tt)))

schedule_meeting : Apart schedule_memory_fields meeting_memory_fields
schedule_meeting = (refl, (refl, (refl, (refl, (refl, (refl, tt))))))

-- A document without a source.
default_matches :
    (name : String)
    → All
        (λ s. source_matches s absent name ≡ (resolve_default_source name == s))
        valid_memory_sources
unfolding resolve_default_source
default_matches name =
    let kb =
      contains-All (λ t. contains t schedule_memory_fields ≡ false) kb_memory_fields name
        kb_schedule in
    let kb' =
      contains-All (λ t. contains t meeting_memory_fields ≡ false) kb_memory_fields name
        kb_meeting in
    let sched =
      contains-All (λ t. contains t meeting_memory_fields ≡ false) schedule_memory_fields name
        schedule_meeting in
    elim (Bool-cases (contains name kb_memory_fields)) [
      | inl a ↦ rw (a, kb a, kb' a) (refl, (refl, (refl, (refl, tt))))
      | inr a ↦ elim (Bool-cases (contains name schedule_memory_fields)) [
        | inl b ↦ rw (a, b, sched b) (refl, (refl, (refl, (refl, tt))))
        | inr b ↦ elim (Bool-cases (contains name meeting_memory_fields)) [
          | inl c ↦ rw (a, b, c) (refl, (refl, (refl, (refl, tt))))
          | inr c ↦ rw (a, b, c) (refl, (refl, (refl, (refl, tt))))
        ]
      ]
    ]

-- A document with one of the sources.
stored_matches :
    (t name : String)
    → contains t valid_memory_sources ≡ true
    → All (λ s. source_matches s (given t) name ≡ (t == s)) valid_memory_sources
stored_matches t name =
    contains-All (λ t. All (λ s. source_matches s (given t) name ≡ (t == s)) valid_memory_sources)
      valid_memory_sources t
      (
        (refl, (refl, (refl, (refl, tt)))),
        (
          (refl, (refl, (refl, (refl, tt)))),
          ((refl, (refl, (refl, (refl, tt)))), ((refl, (refl, (refl, (refl, tt)))), tt)),
        ),
      )

module _ (sv : Services) (h : KeepsNames sv) where
  shown_stored :
      (name t : String)
      → contains t valid_memory_sources ≡ true
      → resolve_memory_source sv (some t) name ≡ t
  unfolding resolve_memory_source strip lstrip rstrip
  shown_stored name t =
      contains-All (λ t. resolve_memory_source sv (some t) name ≡ t) valid_memory_sources t
        (
          rw (h "dialogue" refl) refl,
          (
            rw (h "knowledge" refl) refl,
            (rw (h "meeting" refl) refl, (rw (h "schedule" refl) refl, tt)),
          ),
        )

  clause_matches :
      (d : MemoryDoc) (s : String)
      → contains s valid_memory_sources ≡ true
      → source_filter_clause sv (some s) d ≡ source_matches s d.source d.memory_field_name
  unfolding source_filter_clause strip lstrip rstrip
  clause_matches d s =
      contains-All
        (λ s. source_filter_clause sv (some s) d ≡ source_matches s d.source d.memory_field_name)
        valid_memory_sources s
        (
          rw (h "dialogue" refl) refl,
          (
            rw (h "knowledge" refl) refl,
            (rw (h "meeting" refl) refl, (rw (h "schedule" refl) refl, tt)),
          ),
        )

  matches_shown :
      (o : StoredSource) (name s : String)
      → IsNormal (given_source o)
      → contains s valid_memory_sources ≡ true
      → source_matches s o name
        ≡ (not (is_null_source o) && (resolve_memory_source sv (given_source o) name == s))
  unfolding resolve_memory_source
  matches_shown absent name s n valid =
      contains-All (λ s. source_matches s absent name ≡ (resolve_default_source name == s))
        valid_memory_sources s (default_matches name) valid
  matches_shown null_source name s n valid =
      contains-All (λ s. source_matches s null_source name ≡ false) valid_memory_sources s
        (refl, (refl, (refl, (refl, tt)))) valid
  matches_shown (given t) name s n valid = rw (shown_stored name t n) (
      contains-All (λ s. source_matches s (given t) name ≡ (t == s)) valid_memory_sources s
        (stored_matches t name n) valid)

  -- Where `str.lower` keeps the names of the sources, and the document has no source, a null one or
  -- one of the four: the list's filter by a source selects it exactly if that source is the one that
  -- it is shown with and its own is not null.
  pub source_filter_clause-exact :
      (d : MemoryDoc) (s : String)
      → IsNormal (given_source d.source)
      → contains s valid_memory_sources ≡ true
      → source_filter_clause sv (some s) d ≡ (
          not (is_null_source d.source)
          && (resolve_memory_source sv (given_source d.source) d.memory_field_name == s))
  source_filter_clause-exact d s n valid =
      rw (clause_matches d s valid) (matches_shown d.source d.memory_field_name s n valid)
