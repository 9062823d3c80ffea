-- ===== src/Policy/Meeting.antt =====
-- The condition of services/memory_policy.py on the meetings of a claim's evidence.

use hojo_memory_engine.Prelude.{
  ◌≡◌, ◌≢◌, refl, sym, ap, ◌∙◌, inl, inr, String, false, not, ◌&&◌, some, List, [], ◌∷◌,
  if◌then◌else◌, Holds, arith, ◌==◌, string_eq, eq_iff, Bool-cases, Option-cases,
}
use hojo_memory_engine.Claim.Types.{MemoryScope, self, cross, all, MemoryProvenance, Claim}
use hojo_memory_engine.Policy.{MemoryUsageContext, is_self, is_cross, from_meeting, fits_scope}
use hojo_memory_engine.Policy.Conditions.{Decides, Given}

-- One of the entries has the meeting.
abbrev pub Mentions : List MemoryProvenance → String → Type 0
Mentions ps m = (p : MemoryProvenance) × Holds ps p × (p.meeting_id ≡ some m)

pub from_meeting-Mentions :
    (m : String) (ps : List MemoryProvenance) → m ≢ "" → Decides (from_meeting m ps) (Mentions ps m)
unfolding from_meeting
from_meeting-Mentions m [] n = (λ e. cc, λ (p, h, e). absurd h)
from_meeting-Mentions m (p ∷ ps) n = elim (Option-cases p.meeting_id) [
  | inl e ↦ (
    λ h. let (q, held, f) = (from_meeting-Mentions m ps n).0 (rw e at h) in (q, inr held, f),
    λ (q, held, f). elim held [
      | inl same ↦ cc (ap (λ r. r.meeting_id) same, e, f)
      | inr held ↦ rw e ((from_meeting-Mentions m ps n).1 (q, held, f))
    ],
  )
  | inr (i, e) ↦ elim (Bool-cases (i == m)) [
    | inl t ↦
        let same = (eq_iff i m).0 t in
        let full : (i == "") ≡ false = elim (Bool-cases (i == "")) [
          | inl u ↦ absurd (n (sym same ∙ (eq_iff i "").0 u))
          | inr u ↦ u
        ] in
        (λ h. (p, inl refl, e ∙ ap some same), λ h. rw e (ground (arith, full, t)))
    | inr t ↦ (
      λ h.
          let h' = rw e at h in
          let (q, held, f) = (from_meeting-Mentions m ps n).0 (ground (arith, t, h')) in
          (q, inr held, f),
      λ (q, held, f). elim held [
        | inl same ↦
            let other : i ≡ m = cc (ap (λ r. r.meeting_id) same, e, f) in
            absurd (cc (t, (eq_iff i m).1 other))
        | inr held ↦
            let rest = (from_meeting-Mentions m ps n).1 (q, held, f) in rw e (ground (arith, rest))
      ],
    )
  ]
]

-- `self` wants evidence of the meeting, `cross` evidence of others alone.
abbrev pub Suits : MemoryScope → List MemoryProvenance → String → Type 0
Suits s ps m = (s ≡ self → Mentions ps m) × (s ≡ cross → ¬ Mentions ps m)

pub scope-Suits :
    (s : MemoryScope) (ps : List MemoryProvenance) (m : String)
    → m ≢ ""
    → Decides
        (if is_self s then from_meeting m ps else not (is_cross s && from_meeting m ps))
        (Suits s ps m)
scope-Suits self ps m n =
    let d = from_meeting-Mentions m ps n in
    (λ e. ((λ _. d.0 e), (λ f. absurd (cc f))), λ h. d.1 (h.0 refl))
scope-Suits cross ps m n =
    let d = from_meeting-Mentions m ps n in
    (
      λ e. ((λ f. absurd (cc f)), λ _ h. let t = d.1 h in cc (e, t)),
      λ h. elim (Bool-cases (from_meeting m ps)) [
        | inl t ↦ absurd (h.1 refl (d.0 t))
        | inr t ↦ rw t refl
      ],
    )
scope-Suits all ps m n = (λ e. ((λ f. absurd (cc f)), (λ f. absurd (cc f))), λ h. refl)

pub fits_scope-Suits :
    (usage : MemoryUsageContext) (c : Claim)
    → Decides
        (fits_scope usage c)
        ((m : String) → Given usage.current_meeting_id m → Suits usage.scope c.provenance m)
unfolding fits_scope
fits_scope-Suits usage c = elim (Option-cases usage.current_meeting_id) [
  | inl e ↦ (λ _ m g. absurd (cc (e, g.0)), λ _. rw e refl)
  | inr (i, e) ↦ elim (Bool-cases (i == "")) [
    | inl t ↦ (
      λ _ m g. let same : i ≡ m = cc (e, g.0) in absurd (g.1 (sym same ∙ (eq_iff i "").0 t)),
      λ _. rw (e, t) refl,
    )
    | inr t ↦
        let n : i ≢ "" = λ z. cc (t, (eq_iff i "").1 z) in
        let d = scope-Suits usage.scope c.provenance i n in
        (
          λ h m g. let same : i ≡ m = cc (e, g.0) in rw (← same) (d.0 (rw (e, t) at h)),
          λ h. rw (e, t) (d.1 (h i (e, n))),
        )
  ]
]
