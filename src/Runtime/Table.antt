-- ===== src/Runtime/Table.antt =====
-- The table of workloads of internal/runtime/runtime_linux.go: what starting and stopping changes,
-- and the addresses that it gives out.
use aldea.Prelude.{◌≡◌, refl, String, none, some, ok, err, arith, if◌then◌else◌}
use aldea.Prelude.Int.{ℤ}
use aldea.Prelude.Dict.{lookup, insert, lookup-insert, length-insert_old}
use aldea.Prelude.Text.{str_eq, str_eq_iff, str_eq_refl}
use aldea.Scheduler.{WorkloadManifest}
use aldea.Runtime.{
  Engine, ContainerStatus, state_stopped, state_running, workload_not_found, start_workload,
  stop_workload, get_workload_status,
}

module _ {F : Type 0} where
  -- A started workload has the status that the start returned, which is running, and the others
  -- have theirs as before. Stopping it then succeeds, marks it stopped with all else kept, and
  -- leaves the others too; stopping an unknown workload is refused.
  pub stop-start :
      (now : ℤ) (m : WorkloadManifest F) (e : Engine) (id : String)
      → (get_workload_status id (start_workload now m e).1 ≡ (
          if str_eq id m.workload_id
          then ok (start_workload now m e).0
          else get_workload_status id e))
        × ((start_workload now m e).0.state ≡ state_running)
        × ((e' : Engine) × (stop_workload m.workload_id (start_workload now m e).1 ≡ ok e')
            × (get_workload_status id e' ≡ (
                if str_eq id m.workload_id
                then ok (record (start_workload now m e).0 { state = state_stopped })
                else get_workload_status id e)))
        × (lookup id e ≡ none → stop_workload id e ≡ err workload_not_found)
  unfolding start_workload stop_workload get_workload_status
  stop-start now m e id =
      let status = (start_workload now m e).0 in
      let first = lookup-insert id m.workload_id status e in
      let own = lookup-insert m.workload_id m.workload_id status e in
      let again =
        lookup-insert id m.workload_id (record status { state = state_stopped })
          (insert m.workload_id status e) in
      let same = str_eq_refl m.workload_id in
      (
        ground (arith, first, str_eq_iff id m.workload_id),
        refl,
        (
          insert m.workload_id (record status { state = state_stopped })
              (insert m.workload_id status e),
          ground (arith, own, same),
          ground (arith, first, again, str_eq_iff id m.workload_id),
        ),
        λ n. ground (arith, n),
      )

  -- A workload that is started again gives its old place in the count away: the next start, of
  -- whichever workload, hands out the same process number and address.
  pub start_again_shares_address :
      (now now' : ℤ) (m m' : WorkloadManifest F) (e : Engine) (old : ContainerStatus)
      → lookup m.workload_id e ≡ some old
      → ((start_workload now' m' (start_workload now m e).1).0.pid ≡ (start_workload now m e).0.pid)
        × ((start_workload now' m' (start_workload now m e).1).0.ip_address
            ≡ (start_workload now m e).0.ip_address)
  unfolding start_workload
  start_again_shares_address now now' m m' e old h =
      let same = length-insert_old m.workload_id (start_workload now m e).0 old e h in
      (rw same refl, rw same refl)
