-- ===== src/Domain/Status/StageScan.antt =====
-- internal/domain/project_status.go: the loop of `DeriveProjectReportStage`.
use Prim.Native.Nat.{min}
use project_management.Base.{
  ℕ, suc, ◌≤◌, ◌<◌, ◌≡◌, refl, sym, ap, subst, ◌∙◌, Bool, true, false, List, [], ◌∷◌, inl, inr, ◌⊎◌,
  none, some, arith, Bool-cases, All, any, if◌then◌else◌, ltb, ◌||◌, ℤ, pos, negsuc, ltb_ℤ,
}
use project_management.Domain.Phase.{is_report_phase}
use project_management.Domain.Phase.Laws.{is_report_phase-rank}
use project_management.Domain.Status.{
  ProjectStatusItem, is_terminated, service_item_lifecycle_rank, phase_of, skipped, undecidable,
  at_phase, stage_verdict, scan_stage,
}

-- An item that stands in the report chain, at the phase `n`.
abbrev pub AtPhase : ProjectStatusItem → ℕ → Type 0
AtPhase item n = stage_verdict item ≡ at_phase (pos n)

-- A phase that is compared is never negative.
pub verdict-cases :
    (item : ProjectStatusItem)
    → (stage_verdict item ≡ skipped)
      ⊎ (stage_verdict item ≡ undecidable)
      ⊎ ((n : ℕ) × AtPhase item n)
unfolding stage_verdict
verdict-cases item = elim (Bool-cases (is_terminated item)) [
  | inl gone ↦ inl (rw gone)
  | inr kept ↦ rw kept (elim (Bool-cases (ltb (service_item_lifecycle_rank item) 6)) [
    | inl early ↦ inr (inl (rw early))
    | inr late ↦ rw late (elim (Bool-cases (is_report_phase (phase_of item))) [
      | inl known ↦
          let (n, e) = (is_report_phase-rank (phase_of item)).0 known in
          inr (inr (n, rw (known, e)))
      | inr unknown ↦ inr (inl (rw unknown))
    ])
  ])
]

abbrev pub is_undecidable : ProjectStatusItem → Bool
is_undecidable item = elim (stage_verdict item) [
  | skipped ↦ false
  | undecidable ↦ true
  | at_phase _ ↦ false
]

abbrev pub AttainsPhase : ℕ → List ProjectStatusItem → Type 0
AttainsPhase n [] = ⊥
AttainsPhase n (item ∷ items) = AtPhase item n ⊎ AttainsPhase n items

-- `n` is the least phase, and every item is decided.
pub record IsStage (items : List ProjectStatusItem) (n : ℕ) : Type 0 where
  pub decided : any is_undecidable items ≡ false
  pub bound : All (λ i. (m : ℕ) → AtPhase i m → n ≤ m) items
  pub attained : AttainsPhase n items

abbrev lower_ℤ : ℤ → ℤ → ℤ
lower_ℤ lowest phase = if ltb_ℤ lowest (pos 0) || ltb_ℤ phase lowest then phase else lowest

-- One round of the loop, for each verdict.
module _ (item : ProjectStatusItem) (items : List ProjectStatusItem) (l : ℤ) (c : ℕ) where
  scan_skipped : stage_verdict item ≡ skipped → scan_stage (item ∷ items) l c ≡ scan_stage items l c
  unfolding scan_stage
  scan_skipped e = rw (e, scan_stage)

  scan_undecidable : stage_verdict item ≡ undecidable → scan_stage (item ∷ items) l c ≡ none
  unfolding scan_stage
  scan_undecidable e = rw (e, scan_stage)

  scan_at :
      (n : ℕ)
      → AtPhase item n
      → scan_stage (item ∷ items) l c ≡ scan_stage items (lower_ℤ l (pos n)) (suc c)
  unfolding scan_stage
  scan_at n e = rw (e, scan_stage)

pub scan_undecided :
    (items : List ProjectStatusItem) (l : ℤ) (c : ℕ)
    → any is_undecidable items ≡ true
    → scan_stage items l c ≡ none
scan_undecided [] l c h = cc
scan_undecided (item ∷ items) l c h = elim (verdict-cases item) [
  | inl e ↦ scan_skipped item items l c e ∙ scan_undecided items l c (rw (e, is_undecidable) at h)
  | inr (inl e) ↦ scan_undecidable item items l c e
  | inr (inr (n, e)) ↦
      scan_at item items l c n e
      ∙ scan_undecided items (lower_ℤ l (pos n)) (suc c) (rw (e, is_undecidable) at h)
]

-- Once a phase is known, the loop ends at the least phase among it and those of the items.
record Ends (items : List ProjectStatusItem) (l c : ℕ) : Type 0 where
  n : ℕ
  k : ℕ
  result : scan_stage items (pos l) c ≡ some (pos n, k)
  counted : c ≤ k
  below : n ≤ l
  bound : All (λ i. (m : ℕ) → AtPhase i m → n ≤ m) items
  attained : (n ≡ l) ⊎ AttainsPhase n items

pub phase_unique : (item : ProjectStatusItem) (n m : ℕ) → AtPhase item n → AtPhase item m → n ≡ m
phase_unique item n m e d = cc

phase_of_skipped :
    (item : ProjectStatusItem) (m : ℕ) → stage_verdict item ≡ skipped → ¬ (AtPhase item m)
phase_of_skipped item m e d = cc

lower-pos : (l n : ℕ) → lower_ℤ (pos l) (pos n) ≡ pos (min n l)
lower-pos l n = ground arith

min-either : (n l : ℕ) → (min n l ≡ n) ⊎ (min n l ≡ l)
min-either n l = grind arith

min-attained :
    (item : ProjectStatusItem) (items : List ProjectStatusItem) (l p n : ℕ)
    → AtPhase item p
    → (n ≡ min p l) ⊎ AttainsPhase n items
    → (n ≡ l) ⊎ AttainsPhase n (item ∷ items)
min-attained item items l p n e (inr at) = inr (inr at)
min-attained item items l p n e (inl same) = elim (min-either p l) [
  | inl new ↦ inr (inl (subst (AtPhase item) (sym (same ∙ new)) e))
  | inr old ↦ inl (same ∙ old)
]

scan-Ends :
    (items : List ProjectStatusItem) (l c : ℕ) → any is_undecidable items ≡ false → Ends items l c
scan-Ends [] l c h = record {
  n = l;
  k = c;
  result = unfold scan_stage in refl;
  counted = omega arith;
  below = omega arith;
  bound = tt;
  attained = inl refl;
}
scan-Ends (item ∷ items) l c h = elim (verdict-cases item) [
  | inl e ↦
      let r = scan-Ends items l c (rw (e, is_undecidable) at h) in
      record {
        n = r.n;
        k = r.k;
        result = scan_skipped item items (pos l) c e ∙ r.result;
        counted = r.counted;
        below = r.below;
        bound = (λ m at. absurd (phase_of_skipped item m e at), r.bound);
        attained = elim r.attained [ inl same ↦ inl same | inr at ↦ inr (inr at) ];
      }
  | inr (inl e) ↦ absurd (ground arith)
  | inr (inr (p, e)) ↦
      let r = scan-Ends items (min p l) (suc c) (rw (e, is_undecidable) at h) in
      record {
        n = r.n;
        k = r.k;
        result =
            scan_at item items (pos l) c p e
            ∙ ap (λ x. scan_stage items x (suc c)) (lower-pos l p)
            ∙ r.result;
        counted = omega (arith, r.counted);
        below = omega (arith, r.below);
        bound = (λ m at. omega (arith, r.below, phase_unique item p m e at), r.bound);
        attained = min-attained item items l p r.n e r.attained;
      }
]

-- The first phase that the loop meets replaces the -1 of its start.
pub record Starts (items : List ProjectStatusItem) : Type 0 where
  pub n : ℕ
  pub k : ℕ
  pub result : scan_stage items (negsuc 0) 0 ≡ some (pos n, k)
  pub counted : 0 < k
  pub stage : IsStage items n

pub skipped-terminated :
    (item : ProjectStatusItem) → stage_verdict item ≡ skipped → is_terminated item ≡ true
unfolding stage_verdict
skipped-terminated item e = ground arith

later_stage :
    (item : ProjectStatusItem) (items : List ProjectStatusItem)
    → stage_verdict item ≡ skipped
    → Starts items
    → Starts (item ∷ items)
later_stage item items e r = record {
  n = r.n;
  k = r.k;
  result = scan_skipped item items (negsuc 0) 0 e ∙ r.result;
  counted = r.counted;
  stage = record {
    decided = rw (e, is_undecidable) r.stage.decided;
    bound = (λ m at. absurd (phase_of_skipped item m e at), r.stage.bound);
    attained = inr r.stage.attained;
  };
}

first_stage :
    (item : ProjectStatusItem) (items : List ProjectStatusItem) (p : ℕ)
    → any is_undecidable items ≡ false
    → AtPhase item p
    → Starts (item ∷ items)
first_stage item items p h e =
    let r = scan-Ends items p 1 h in
    record {
      n = r.n;
      k = r.k;
      result = scan_at item items (negsuc 0) 0 p e ∙ r.result;
      counted = omega (arith, r.counted);
      stage = record {
        decided = rw (e, is_undecidable) h;
        bound = (λ m at. omega (arith, r.below, phase_unique item p m e at), r.bound);
        attained = elim r.attained [
          | inl same ↦ inl (subst (AtPhase item) (sym same) e)
          | inr at ↦ inr at
        ];
      };
    }

abbrev pub AllGone : List ProjectStatusItem → Type 0
AllGone items =
    (scan_stage items (negsuc 0) 0 ≡ some (negsuc 0, 0)) × All (λ i. is_terminated i ≡ true) items

pub scan-Starts :
    (items : List ProjectStatusItem)
    → any is_undecidable items ≡ false
    → AllGone items ⊎ Starts items
scan-Starts [] h = inl (unfold scan_stage in refl, tt)
scan-Starts (item ∷ items) h = elim (verdict-cases item) [
  | inl e ↦ elim (scan-Starts items (rw (e, is_undecidable) at h)) [
    | inl gone ↦
        inl (scan_skipped item items (negsuc 0) 0 e ∙ gone.0, (skipped-terminated item e, gone.1))
    | inr r ↦ inr (later_stage item items e r)
  ]
  | inr (inl e) ↦ absurd (ground arith)
  | inr (inr (p, e)) ↦ inr (first_stage item items p (rw (e, is_undecidable) at h) e)
]
