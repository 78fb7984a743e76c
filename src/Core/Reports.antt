-- ===== src/Core/Reports.antt =====
-- ReportUtils.hpp and ReportUtils.cpp: the codes of errors, the exceptions that are thrown for
-- them, and the exceptions for the return codes of the C library. The texts are left out.
use cyclonedds_cxx.Common.{ℕ, ◌≡◌, ◌↔◌, arith, ◌==◌, if◌then◌else◌}
use cyclonedds_cxx.Common.Int.{ℤ, pos, negsuc}
use cyclonedds_cxx.Time.Result.{
  Exception, error, illegal_operation, invalid_argument, inconsistent_policy, unsupported,
  precondition_not_met, null_reference, out_of_resources, not_enabled, immutable_policy,
  already_closed, timeout, Result, ok, throws,
}

abbrev pub error_code : ℕ
error_code = 1

abbrev pub unsupported_error_code : ℕ
unsupported_error_code = 2

abbrev pub invalid_argument_code : ℕ
invalid_argument_code = 3

abbrev pub precondition_not_met_error_code : ℕ
precondition_not_met_error_code = 4

abbrev pub out_of_resources_error_code : ℕ
out_of_resources_error_code = 5

abbrev pub not_enabled_error_code : ℕ
not_enabled_error_code = 6

abbrev pub immutable_policy_error_code : ℕ
immutable_policy_error_code = 7

abbrev pub inconsistent_policy_error_code : ℕ
inconsistent_policy_error_code = 8

abbrev pub already_closed_error_code : ℕ
already_closed_error_code = 9

abbrev pub timeout_error_code : ℕ
timeout_error_code = 10

abbrev pub no_data_error_code : ℕ
no_data_error_code = 11

abbrev pub illegal_operation_error_code : ℕ
illegal_operation_error_code = 12

abbrev pub null_reference_error_code : ℕ
null_reference_error_code = 13

-- ExceptionFactory::throw_exception, by the code that was prepared.
unfoldable pub thrown : ℕ → Exception
thrown code =
    if code == error_code
    then error
    else if code == unsupported_error_code
    then unsupported
    else if code == invalid_argument_code
    then invalid_argument
    else if code == precondition_not_met_error_code
    then precondition_not_met
    else if code == out_of_resources_error_code
    then out_of_resources
    else if code == not_enabled_error_code
    then not_enabled
    else if code == immutable_policy_error_code
    then immutable_policy
    else if code == inconsistent_policy_error_code
    then inconsistent_policy
    else if code == already_closed_error_code
    then already_closed
    else if code == timeout_error_code
    then timeout
    else if code == illegal_operation_error_code
    then illegal_operation
    else if code == null_reference_error_code
    then null_reference
    else error

-- The return codes of the C library that are told apart.
pub data Retcode : Type 0 where
  retcode_timeout retcode_unsupported retcode_not_allowed retcode_illegal_operation : Retcode
  retcode_not_allowed_by_security retcode_precondition_not_met : Retcode
  retcode_immutable_policy retcode_inconsistent_policy retcode_bad_parameter : Retcode
  retcode_not_enough_space retcode_out_of_resources retcode_already_deleted : Retcode
  retcode_not_enabled retcode_other : Retcode

unfoldable pub prepared : Retcode → ℕ
prepared retcode_timeout = timeout_error_code
prepared retcode_unsupported = unsupported_error_code
prepared retcode_not_allowed = illegal_operation_error_code
prepared retcode_illegal_operation = illegal_operation_error_code
prepared retcode_not_allowed_by_security = illegal_operation_error_code
prepared retcode_precondition_not_met = precondition_not_met_error_code
prepared retcode_immutable_policy = immutable_policy_error_code
prepared retcode_inconsistent_policy = inconsistent_policy_error_code
prepared retcode_bad_parameter = invalid_argument_code
prepared retcode_not_enough_space = out_of_resources_error_code
prepared retcode_out_of_resources = out_of_resources_error_code
prepared retcode_already_deleted = already_closed_error_code
prepared retcode_not_enabled = not_enabled_error_code
prepared retcode_other = error_code

-- check_ddsc_result_and_throw_exception. `err_nr` is dds_err_nr and the constants that it is
-- compared with.
unfoldable pub check_ddsc_result : (ℤ → Retcode) → ℤ → Result (Unit {0})
unfolding thrown prepared
check_ddsc_result err_nr (pos code) = ok tt
check_ddsc_result err_nr (negsuc code) = throws (thrown (prepared (err_nr (negsuc code))))

-- A time-out of the C library, and nothing else, is a TimeoutError.
pub check_ddsc_result-timeout :
    (err_nr : ℤ → Retcode) (code : ℕ)
    → (check_ddsc_result err_nr (negsuc code) ≡ throws timeout)
      ↔ (err_nr (negsuc code) ≡ retcode_timeout)
unfolding check_ddsc_result
check_ddsc_result-timeout err_nr code = ground arith
