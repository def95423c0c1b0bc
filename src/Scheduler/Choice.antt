-- ===== src/Scheduler/Choice.antt =====
-- Which node internal/scheduler/scheduler.go places a workload on.
use aldea.Prelude.{
  subst, ◌≡◌, refl, sym, ◌∙◌, ◌⊎◌, inl, inr, ◌≢◌, Bool, true, false, String, Option, none, some,
  List, [], ◌∷◌, ok, err, arith, All, Bool-cases, ◌&&◌, not, keep, keep-All, if◌then◌else◌,
}
use aldea.Prelude.Int.{negsuc}
use aldea.Prelude.Text.{str_eq, str_eq_iff}
use aldea.Scheduler.{
  Float, NodeComputeCapability, WorkloadManifest, can_run, score, select_loop, select_node,
  without_node, reschedule_on_node_failure, workload_stateful, no_eligible_compute_node,
  stateful_workload_pinned,
}
use mathlib.Core.List.{Memᴰ}

both : (a b : Bool) → a && b ≡ true → (a ≡ true) × (b ≡ true)
both true true e = (refl, refl)
both true false e = absurd (ground (arith, e))
both false b e = absurd (ground (arith, e))

neither : (a b : Bool) → a && b ≡ false → a ≡ true → b ≡ false
neither a b e h = ground (arith, e, h)

module _ {A : Type 0} {x : A} where
  All_mem : (P : A → Type 0) (l : List A) → Memᴰ x l → All P l → P x
  All_mem P l (Memᴰ.head e) h = subst P (sym e) h.0
  All_mem P l (Memᴰ.tail at) h = All_mem P _ at h.1

  Mem_if :
      (b : Bool) (y : A) (k l : List A)
      → (Memᴰ x k → Memᴰ x l)
      → Memᴰ x (if b then y ∷ k else k)
      → Memᴰ x (y ∷ l)
  Mem_if true y k l sub (Memᴰ.head e) = Memᴰ.head e
  Mem_if true y k l sub (Memᴰ.tail at) = Memᴰ.tail (sub at)
  Mem_if false y k l sub at = Memᴰ.tail (sub at)

Mem_keep : {A : Type 0} (p : A → Bool) (x : A) (l : List A) → Memᴰ x (keep p l) → Memᴰ x l
Mem_keep p x [] at = at
Mem_keep p x (y ∷ l) at = Mem_if (p y) y (keep p l) l (λ a. Mem_keep p x l a) at

module _ {F : Type 0} (fl : Float F) (m : WorkloadManifest F) where
  open fl use {of_int, less}

  -- No candidate that can run the workload scores above `top`.
  abbrev pub IsTop : F → List (NodeComputeCapability F) → Type 0
  IsTop top cs = All (λ c. can_run fl m c ≡ true → less top (score fl c) ≡ false) cs

  -- What a smaller number does not lie below, a larger one does not.
  blocked : (x y z : F) → less x y ≡ true → less x z ≡ false → less y z ≡ false
  blocked x y z h n = elim (Bool-cases (less y z)) [
    | inr f ↦ f
    | inl b ↦ absurd (ground (arith, n, fl.less_trans x y z h b))
  ]

  IsTop-up :
      (x y : F) (cs : List (NodeComputeCapability F)) → less x y ≡ true → IsTop x cs → IsTop y cs
  IsTop-up x y [] h t = tt
  IsTop-up x y (c ∷ cs) h t = (λ r. blocked x y (score fl c) h (t.0 r), IsTop-up x y cs h t.1)

  -- What the loop gives from `best` and `top`: either it keeps them, and nothing after scores above
  -- `top`, or it gives a candidate that can run the workload, beats `top` and is not beaten.
  pub LoopResult :
      List (NodeComputeCapability F)
      → Option (NodeComputeCapability F)
      → F
      → Option (NodeComputeCapability F)
      → Type 0
  LoopResult cs best top r =
      ((r ≡ best) × IsTop top cs)
      ⊎ ((c : NodeComputeCapability F) × (r ≡ some c)
          × Memᴰ c cs
          × (can_run fl m c ≡ true)
          × (less top (score fl c) ≡ true)
          × IsTop (score fl c) cs)

  select_loop_step :
      (c : NodeComputeCapability F) (cs : List (NodeComputeCapability F))
      (best : Option (NodeComputeCapability F)) (top : F)
      → ((can_run fl m c && less top (score fl c) ≡ true)
          → select_loop fl m (c ∷ cs) best top ≡ select_loop fl m cs (some c) (score fl c))
        × ((can_run fl m c && less top (score fl c) ≡ false)
            → select_loop fl m (c ∷ cs) best top ≡ select_loop fl m cs best top)
  unfolding select_loop
  select_loop_step c cs best top = (λ t. ground (arith, t), λ f. ground (arith, f))

  select_loop-LoopResult :
      (cs : List (NodeComputeCapability F)) (best : Option (NodeComputeCapability F)) (top : F)
      → LoopResult cs best top (select_loop fl m cs best top)
  unfolding LoopResult select_loop
  select_loop-LoopResult [] best top = inl (refl, tt)
  select_loop-LoopResult (c ∷ cs) best top =
      elim (Bool-cases (can_run fl m c && less top (score fl c))) [
        | inl t ↦
            let (runs, beats) = both (can_run fl m c) (less top (score fl c)) t in
            elim (select_loop-LoopResult cs (some c) (score fl c)) [
              | inl (e, top') ↦ inr (
                c,
                (select_loop_step c cs best top).0 t ∙ e,
                Memᴰ.head refl,
                runs,
                beats,
                ((λ _. fl.less_irrefl (score fl c)), top'),
              )
              | inr (d, e, at, r, b, top') ↦ inr (
                d,
                (select_loop_step c cs best top).0 t ∙ e,
                Memᴰ.tail at,
                r,
                fl.less_trans top (score fl c) (score fl d) beats b,
                (
                  (λ _.
                      blocked (score fl c) (score fl d) (score fl c) b
                        (fl.less_irrefl (score fl c))),
                  top',
                ),
              )
            ]
        | inr f ↦ elim (select_loop-LoopResult cs best top) [
          | inl (e, top') ↦ inl (
            (select_loop_step c cs best top).1 f ∙ e,
            (neither (can_run fl m c) (less top (score fl c)) f, top'),
          )
          | inr (d, e, at, r, b, top') ↦ inr (
            d,
            (select_loop_step c cs best top).1 f ∙ e,
            Memᴰ.tail at,
            r,
            b,
            (
              (λ r'.
                  blocked top (score fl d) (score fl c) b
                    (neither (can_run fl m c) (less top (score fl c)) f r')),
              top',
            ),
          )
        ]
      ]

  -- The choice is a candidate that is a healthy Linux node with compute enabled and with the CPU and
  -- memory asked for, and no such candidate scores higher. The refusal means that no such candidate
  -- scores above -1.
  pub select_node_best :
      (cs : List (NodeComputeCapability F))
      → ((c : NodeComputeCapability F) × (select_node fl m cs ≡ ok c)
          × Memᴰ c cs
          × (can_run fl m c ≡ true)
          × IsTop (score fl c) cs)
        ⊎ ((select_node fl m cs ≡ err no_eligible_compute_node) × IsTop (of_int (negsuc 0)) cs)
  unfolding select_node LoopResult
  select_node_best cs = elim (select_loop-LoopResult cs none (of_int (negsuc 0))) [
    | inl (e, top) ↦ inr ((unfold select_node in ground (arith, e)), top)
    | inr (c, e, at, r, b, top) ↦ inl (c, (unfold select_node in ground (arith, e)), at, r, top)
  ]

  Mem_without :
      (dead : String) (c : NodeComputeCapability F) (cs : List (NodeComputeCapability F))
      → Memᴰ c (without_node fl dead cs)
      → Memᴰ c cs × (c.node_id ≢ dead)
  unfolding without_node
  Mem_without dead c cs at = (
    Mem_keep _ c cs at,
    λ e. absurd (
        ground (
          arith,
          All_mem _ _ at (keep-All (λ x. not (str_eq x.node_id dead)) cs),
          str_eq_iff c.node_id dead,
          e,
        )),
  )

  -- A stateful workload is refused. Another goes to a candidate that is not the failed node and that
  -- can run it, and no candidate left that can run it scores higher; or none scores above -1.
  pub reschedule_on_node_failure_best :
      (dead : String) (cs : List (NodeComputeCapability F))
      → ((m.workload_type ≡ workload_stateful)
          × (reschedule_on_node_failure fl m dead cs ≡ err stateful_workload_pinned))
        ⊎ ((m.workload_type ≢ workload_stateful)
            × (((c : NodeComputeCapability F) × (reschedule_on_node_failure fl m dead cs ≡ ok c)
                  × Memᴰ c cs
                  × (c.node_id ≢ dead)
                  × (can_run fl m c ≡ true)
                  × IsTop (score fl c) (without_node fl dead cs))
                ⊎ ((reschedule_on_node_failure fl m dead cs ≡ err no_eligible_compute_node)
                    × IsTop (of_int (negsuc 0)) (without_node fl dead cs))))
  unfolding reschedule_on_node_failure
  reschedule_on_node_failure_best dead cs = elim (str_eq_iff m.workload_type workload_stateful) [
    | inl (t, e) ↦ inl (e, rw t refl)
    | inr (t, n) ↦ inr (
      n,
      elim (select_node_best (without_node fl dead cs)) [
        | inr (e, top) ↦ inr (rw (t, e) refl, top)
        | inl (c, e, at, r, top) ↦
            let (at', alive) = Mem_without dead c cs at in
            inl (c, rw (t, e) refl, at', alive, r, top)
      ],
    )
  ]
