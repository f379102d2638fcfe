-- ===== src/Errors.antt =====
-- lib/errors: codes joined to errors, wrapping, and the code that is read back. An error is the list
-- of the values that `errors.Is` finds in its tree; messages and attributes are left out.
pub mod Codes
use story.ErrCode
use story.Base.{ℕ, Bool, false, ◌||◌, List, [], ◌∷◌, ◌==◌, leb, if◌then◌else◌}

-- The sentinel errors of the modules and packages that the client tests for.
pub data Cause : Type 0 where
  no_validator_found : Cause
  no_delegation : Cause
  no_period_delegation : Cause
  delegation_below_minimum : Cause
  no_period_type_found : Cause
  validator_owner_exists : Cause
  commission_lt_min_rate : Cause
  min_self_delegation_below_min_delegation : Cause
  no_token_type_found : Cause
  self_redelegation : Cause
  token_type_mismatch : Cause
  no_validator_for_address : Cause
  missing_self_delegation : Cause
  validator_not_jailed : Cause
  validator_jailed : Cause
  no_validator_commission : Cause
  invalid_request : Cause
  not_found : Cause
  empty_queue : Cause
  out_of_bounds_queue : Cause
  upgrade_pending : Cause
  upgrade_not_found : Cause
  unknown_chain_id : Cause
  unknown_upgrade : Cause
  exec_eng_syncing : Cause

abbrev pub cause_id : Cause → ℕ
cause_id no_validator_found = 0
cause_id no_delegation = 1
cause_id no_period_delegation = 2
cause_id delegation_below_minimum = 3
cause_id no_period_type_found = 4
cause_id validator_owner_exists = 5
cause_id commission_lt_min_rate = 6
cause_id min_self_delegation_below_min_delegation = 7
cause_id no_token_type_found = 8
cause_id self_redelegation = 9
cause_id token_type_mismatch = 10
cause_id no_validator_for_address = 11
cause_id missing_self_delegation = 12
cause_id validator_not_jailed = 13
cause_id validator_jailed = 14
cause_id no_validator_commission = 15
cause_id invalid_request = 16
cause_id not_found = 17
cause_id empty_queue = 18
cause_id out_of_bounds_queue = 19
cause_id upgrade_pending = 20
cause_id upgrade_not_found = 21
cause_id unknown_chain_id = 22
cause_id unknown_upgrade = 23
cause_id exec_eng_syncing = 24

-- A value that `errors.Is` can find: the error of a code, or a sentinel.
pub data Mark : Type 0 where
  code : ℕ → Mark
  cause : Cause → Mark

abbrev pub Error : Type 0
Error = List Mark

-- The cases of the switch in `UnwrapErrCode`, in their order.
abbrev pub known_codes : List ℕ
known_codes =
    0 ∷ 1 ∷ 2 ∷ 3 ∷ 4 ∷ 5 ∷ 6 ∷ 7 ∷ 8 ∷ 9 ∷ 10 ∷ 11 ∷ 12 ∷ 13 ∷ 14 ∷ 15 ∷ 16 ∷ 17 ∷ 18 ∷ 19 ∷ []

abbrev is_mark : Cause → Mark → Bool
is_mark c (code k) = false
is_mark c (cause d) = cause_id c == cause_id d

-- `errors.Is` at a sentinel
abbrev pub is : Cause → Error → Bool
is c [] = false
is c (m ∷ ms) = is_mark c m || is c ms

abbrev has_mark : ℕ → Mark → Bool
has_mark k (code j) = j == k
has_mark k (cause c) = false

-- `errors.Is` at the error of a code
abbrev pub has_code : ℕ → Error → Bool
has_code k [] = false
has_code k (m ∷ ms) = has_mark k m || has_code k ms

-- `codeToErr` has an entry for the codes 0 to 19.
abbrev pub is_known : ℕ → Bool
is_known c = leb c 19

abbrev pub wrap_err_with_code : ℕ → Error → Error
wrap_err_with_code c e = code (if is_known c then c else ErrCode.unspecified) ∷ e

first_code : List ℕ → Error → ℕ
first_code [] e = ErrCode.unspecified
first_code (k ∷ ks) e = if has_code k e then k else first_code ks e

unfoldable pub unwrap_err_code : Error → ℕ
unfolding first_code
unwrap_err_code e = first_code known_codes e
