-- ===== src/Scheduler/Manifests.antt =====
-- What a manifest that internal/scheduler/manifest.go lets through looks like.
use aldea.Prelude.{
  ◌≡◌, refl, ◌≢◌, ◌⊎◌, inl, inr, false, ok, arith, Bool-cases, ◌||◌, sym, ap, subst,
}
use aldea.Prelude.Int.{pos, leb_ℤ, ◌<ℤ◌}
use aldea.Prelude.Text.{str_eq, str_eq_iff, bytes_eq}
use aldea.Scheduler.{
  Float, WorkloadManifest, lowers_to, validate, workload_stateless, workload_stateful,
}

module _ {F : Type 0} (fl : Float F) where
  open fl use {of_int, less_eq}

  -- The manifest passes both guards of fields.
  abbrev pub HasFields : WorkloadManifest F → Type 0
  HasFields m =
      (str_eq m.workload_id "" || str_eq m.name "" || str_eq m.image "" ≡ false)
      × (less_eq m.cpu_cores (of_int (pos 0)) || leb_ℤ m.memory_mb (pos 0) ≡ false)

  validate_cases :
      (m m' : WorkloadManifest F)
      → validate fl m ≡ ok m'
      → HasFields m
        × ((m' ≡ record m { workload_type = workload_stateless })
            ⊎ (m' ≡ record m { workload_type = workload_stateful }))
  unfolding validate
  validate_cases m m' e =
      elim (Bool-cases (str_eq m.workload_id "" || str_eq m.name "" || str_eq m.image "")) [
        | inl a ↦ absurd (ground (arith, e, a))
        | inr a ↦
            elim (Bool-cases (less_eq m.cpu_cores (of_int (pos 0)) || leb_ℤ m.memory_mb (pos 0))) [
              | inl b ↦ absurd (ground (arith, e, a, b))
              | inr b ↦ elim (Bool-cases (lowers_to m.workload_type workload_stateless)) [
                | inl c ↦ ((a, b), inl (ground (arith, e, a, b, c)))
                | inr c ↦ elim (Bool-cases (lowers_to m.workload_type workload_stateful)) [
                  | inl d ↦ ((a, b), inr (ground (arith, e, a, b, c, d)))
                  | inr d ↦ absurd (ground (arith, e, a, b, c, d))
                ]
              ]
            ]
      ]

  HasFields_lem :
      (m : WorkloadManifest F)
      → HasFields m
      → (m.workload_id ≢ "")
        × (m.name ≢ "")
        × (m.image ≢ "")
        × (less_eq m.cpu_cores (of_int (pos 0)) ≡ false)
        × (pos 0 <ℤ m.memory_mb)
  HasFields_lem m (a, b) = (
    ground (arith, a, str_eq_iff m.workload_id ""),
    ground (arith, a, str_eq_iff m.name ""),
    ground (arith, a, str_eq_iff m.image ""),
    ground (arith, b),
    ground (arith, b),
  )

  validate_stateless :
      (m : WorkloadManifest F)
      → HasFields m
      → validate fl (record m { workload_type = workload_stateless })
        ≡ ok (record m { workload_type = workload_stateless })
  unfolding validate lowers_to bytes_eq
  validate_stateless m (a, b) = rw (a, b) refl

  validate_stateful :
      (m : WorkloadManifest F)
      → HasFields m
      → validate fl (record m { workload_type = workload_stateful })
        ≡ ok (record m { workload_type = workload_stateful })
  unfolding validate lowers_to bytes_eq
  validate_stateful m (a, b) = rw (a, b) refl

  -- A manifest that is let through names its workload, its name and its image, asks for memory and
  -- for no CPU number that is at most zero, has one of the two types in small letters, differs from
  -- what was given in the type only, and is let through unchanged if validated again.
  pub validate_ok :
      (m m' : WorkloadManifest F)
      → validate fl m ≡ ok m'
      → (m.workload_id ≢ "")
        × (m.name ≢ "")
        × (m.image ≢ "")
        × (less_eq m'.cpu_cores (of_int (pos 0)) ≡ false)
        × (pos 0 <ℤ m'.memory_mb)
        × ((m'.workload_type ≡ workload_stateless) ⊎ (m'.workload_type ≡ workload_stateful))
        × (m' ≡ record m { workload_type = m'.workload_type })
        × (validate fl m' ≡ ok m')
  validate_ok m m' e =
      let (fields, typed) = validate_cases m m' e in
      let (i, n, g, c, h) = HasFields_lem m fields in
      elim typed [
        | inl p ↦ (
          i,
          n,
          g,
          subst (λ x. less_eq x.cpu_cores (of_int (pos 0)) ≡ false) (sym p) c,
          subst (λ x. pos 0 <ℤ x.memory_mb) (sym p) h,
          inl (ap (λ x. x.workload_type) p),
          subst (λ x. x ≡ record m { workload_type = x.workload_type }) (sym p) refl,
          subst (λ x. validate fl x ≡ ok x) (sym p) (validate_stateless m fields),
        )
        | inr p ↦ (
          i,
          n,
          g,
          subst (λ x. less_eq x.cpu_cores (of_int (pos 0)) ≡ false) (sym p) c,
          subst (λ x. pos 0 <ℤ x.memory_mb) (sym p) h,
          inr (ap (λ x. x.workload_type) p),
          subst (λ x. x ≡ record m { workload_type = x.workload_type }) (sym p) refl,
          subst (λ x. validate fl x ≡ ok x) (sym p) (validate_stateful m fields),
        )
      ]
