-- ===== src/PreparationDeletion/Requests/Tests.antt =====
-- Intents to delete rows of the sample database (preparation_deletion.py).
use voucher_management_deskt.Database.Queries.{insert_event}
use voucher_management_deskt.Database.Action.{transaction, ok, err, runtime_error, not_aligned}
use voucher_management_deskt.Samples.{sample_db}
use voucher_management_deskt.Prelude.{clean_ids, ◌∷◌, [], ◌≡◌, strip, from_keys, refl}
use voucher_management_deskt.PreparationDeletion.Requests.Safety.{
  IsRequestedDeletion, requested_deletions_are_safe,
}
use voucher_management_deskt.PreparationDeletion.Requests.{
  record_preparation_delete_requests, normalized_reason, request_selection, insert_requests,
  first_refusal, row_refusal, workflow, refuse_row, is_ordinary, is_invalid_external,
}

requested_second :
    (record_preparation_delete_requests 1 (" b" ∷ []) "wrong name" "2026-01-03" "ada" sample_db).0
    ≡ ok (2 ∷ [])
unfolding record_preparation_delete_requests normalized_reason request_selection insert_requests
    first_refusal row_refusal workflow refuse_row insert_event transaction strip from_keys clean_ids
    is_ordinary is_invalid_external
requested_second = refl

requested_deletions_are_safe_example :
    IsRequestedDeletion 1
      (clean_ids (" b" ∷ []))
      sample_db
      (record_preparation_delete_requests 1 (" b" ∷ []) "wrong name" "2026-01-03" "ada" sample_db).1
      (2 ∷ [])
requested_deletions_are_safe_example =
    requested_deletions_are_safe 1 (" b" ∷ []) "wrong name" "2026-01-03" "ada" sample_db
      requested_second

not_aligned_first :
    (record_preparation_delete_requests 1
      ("b" ∷ "a" ∷ [])
      "wrong name"
      "2026-01-03"
      "ada"
      sample_db).0
    ≡ err (runtime_error not_aligned)
unfolding record_preparation_delete_requests normalized_reason request_selection first_refusal
    row_refusal refuse_row transaction strip from_keys clean_ids is_ordinary is_invalid_external
not_aligned_first = refl
