-- ===== src/Oracle/Storage/Implements.antt =====
-- OracleStorage of internal/oracle/storage.go and activity_storage.go as the storage that the
-- oracle of internal/oracle/oracle.go calls.
use shai.Prelude.{Bool, true, false, not, Option, none, some, Result, ok, err}
use shai.Oracle.Service.{Storage}
use shai.Oracle.Storage.{
  StorageError, Backend, save_pool_state, delete_pool_state, save_cdp_state, delete_cdp_state,
  load_all_pool_states, load_all_cdp_states,
}
use shai.Oracle.Storage.Activity.{
  Ended, completed, save_pool_state_and_activity, load_activity_state, rollback_stored_activity,
}

abbrev if_ok {ℓ} : {A : Type ℓ} → Result StorageError A → Option A
if_ok (ok a) = some a
if_ok (err x) = none

abbrev is_completed : Ended → Bool
is_completed completed = true
is_completed e = false

abbrev with_failure : {D : Type 0} → D × Ended → D × Bool
with_failure (d, ended) = (d, not (is_completed ended))

abbrev pub oracle_storage : {D : Type 0} → Backend D → Storage D
oracle_storage b = record {
  save_pool_state = λ state d. if_ok (save_pool_state b state d);
  save_pool_state_and_activity =
      λ state swap window d. if_ok (save_pool_state_and_activity b state swap window d);
  delete_pool_state = λ state d. if_ok (delete_pool_state b state d);
  save_cdp_state = λ state d. if_ok (save_cdp_state b state d);
  delete_cdp_state = λ network protocol id d. if_ok (delete_cdp_state b network protocol id d);
  rollback_stored_activity = λ slot d. with_failure (rollback_stored_activity b slot d);
  load_all_pool_states = λ d. if_ok (load_all_pool_states b d);
  load_all_cdp_states = λ d. if_ok (load_all_cdp_states b d);
  load_activity_state = λ d. if_ok (load_activity_state b d);
}
