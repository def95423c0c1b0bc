-- ===== src/Compute/Deployed.antt =====
-- What the deploy command of cmd/aldea/compute.go leaves in the engine.
use mathlib.Core.List.{Memᴰ}
use aldea.Prelude.{
  ◌≡◌, ◌≢◌, ◌⊎◌, inl, inr, refl, ap, subst, ◌∙◌, Bool, true, String, Option, none, some, [], ◌∷◌,
  ok, arith, ◌||◌, Bool-cases, Option-cases, Result-cases, if◌then◌else◌,
}
use aldea.Prelude.Int.{ℤ, pos, ◌<ℤ◌, ◌≤ℤ◌, ◌-ℤ◌, sub64, wrap64}
use aldea.Prelude.Text.{str_eq, bytes_eq}
use aldea.Scheduler.{
  Float, WorkloadManifest, parse_manifest_yaml, can_run, available_memory_mb, lowers_to,
}
use aldea.Scheduler.Choice.{select_node_best}
use aldea.Scheduler.Manifests.{validate_ok}
use aldea.Runtime.{Engine, ContainerStatus, start_workload, get_workload_status, state_stopped}
use aldea.Runtime.Table.{stop-start}
use aldea.Compute.{deployed, confirms, local_node, deploy, stop}

module _ {F : Type 0} (fl : Float F) {D : Type 0}
    (unmarshal : D → Option (WorkloadManifest F)) where
  open fl use {of_int}

  parsed-memory :
      (d : D) (m : WorkloadManifest F)
      → parse_manifest_yaml fl unmarshal d ≡ ok m
      → pos 0 <ℤ m.memory_mb
  unfolding parse_manifest_yaml
  parsed-memory d m e = elim (Option-cases (unmarshal d)) [
    | inl n ↦ absurd (ground (arith, e, n))
    | inr (m₀, n) ↦
        let (_, _, _, _, memory, _, _, _) = validate_ok fl m₀ m (ground (arith, e, n)) in memory
  ]

  can_run-memory :
      (m : WorkloadManifest F) → can_run fl m (local_node fl) ≡ true → m.memory_mb ≤ℤ pos 4096
  unfolding can_run available_memory_mb sub64 wrap64 ◌-ℤ◌ lowers_to bytes_eq
  can_run-memory m r = ground (arith, r)

  only : {A : Type 0} {x y : A} → Memᴰ x (y ∷ []) → x ≡ y
  only (Memᴰ.head e) = e
  only (Memᴰ.tail at) = elim at [ ]

  module _ (auto_confirm : Bool) (answer : String) (now : ℤ) (e : Engine) where
    -- A deployment that is carried out.
    abbrev pub IsDeployed : Option D → WorkloadManifest F → Type 0
    IsDeployed content m =
        ((d : D) × (content ≡ some d) × (parse_manifest_yaml fl unmarshal d ≡ ok m))
        × (auto_confirm || confirms answer ≡ true)
        × (can_run fl m (local_node fl) ≡ true)
        × (pos 0 <ℤ m.memory_mb)
        × (m.memory_mb ≤ℤ pos 4096)
        × (deploy fl unmarshal auto_confirm content answer now e
            ≡ (ok (deployed (start_workload now m e).0), (start_workload now m e).1))

    abbrev pub IsUnchanged : Option D → Type 0
    IsUnchanged content =
        ((deploy fl unmarshal auto_confirm content answer now e).1 ≡ e)
        × ((status : ContainerStatus)
            → (deploy fl unmarshal auto_confirm content answer now e).0 ≢ ok (deployed status))

    deploy_outcome :
        (content : Option D)
        → ((m : WorkloadManifest F) × IsDeployed content m) ⊎ IsUnchanged content
    unfolding deploy
    deploy_outcome none = inr (refl, λ status h. ground (arith, h))
    deploy_outcome (some d) = elim (Result-cases (parse_manifest_yaml fl unmarshal d)) [
      | inr (x, p) ↦ inr (ground (arith, p), λ status h. ground (arith, p, h))
      | inl (m, p) ↦ elim (Bool-cases (auto_confirm || confirms answer)) [
        | inr n ↦ inr (ground (arith, p, n), λ status h. ground (arith, p, n, h))
        | inl y ↦ elim (select_node_best fl m (local_node fl ∷ [])) [
          | inr (s, _) ↦ inr (ground (arith, p, y, s), λ status h. ground (arith, p, y, s, h))
          | inl (c, s, at, r, _) ↦
              let runs : can_run fl m (local_node fl) ≡ true =
                subst (λ x. can_run fl m x ≡ true) (only at) r in
              inl (
                m,
                (
                  (d, refl, p),
                  y,
                  runs,
                  parsed-memory d m p,
                  can_run-memory m runs,
                  ground (arith, p, y, s),
                ),
              )
        ]
      ]
    ]

    -- The deploy command either leaves the engine as it was and reports no deployment, or it carries one out, and then
    -- the manifest was parsed, the warning was confirmed or passed over, the workload asks for more than 0 and at most
    -- 4096 MB and for what the local node has; every workload has its status as before, but the deployed one the
    -- status that is reported. Stopping it afterwards succeeds and changes its state to stopped and nothing else.
    pub deploy_cases :
        (content : Option D) (id : String)
        → ((m : WorkloadManifest F) × IsDeployed content m
            × (get_workload_status id (deploy fl unmarshal auto_confirm content answer now e).1 ≡ (
                if str_eq id m.workload_id
                then ok (start_workload now m e).0
                else get_workload_status id e))
            × ((e' : Engine) × (stop m.workload_id
                    (deploy fl unmarshal auto_confirm content answer now e).1
                  ≡ ok e')
                × (get_workload_status id e' ≡ (
                    if str_eq id m.workload_id
                    then ok (record (start_workload now m e).0 { state = state_stopped })
                    else get_workload_status id e))))
          ⊎ IsUnchanged content
    deploy_cases content id = elim (deploy_outcome content) [
      | inr u ↦ inr u
      | inl (m, d) ↦
          let (_, _, _, _, _, result) = d in
          let (status, _, (e', stopped, after), _) = stop-start now m e id in
          let engine = ap (λ x. x.1) result in
          inl (
            m,
            d,
            ap (get_workload_status id) engine ∙ status,
            (e', ap (stop m.workload_id) engine ∙ (unfold stop in ground (arith, stopped)), after),
          )
    ]
