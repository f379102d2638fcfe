-- ===== src/ErrCode.antt =====
-- lib/errors/codes.go: the error codes.
use story.Base.{ℕ}

abbrev pub unspecified : ℕ
unspecified = 0

abbrev pub unexpected_condition : ℕ
unexpected_condition = 1

abbrev pub validator_not_found : ℕ
validator_not_found = 3

abbrev pub validator_already_exists : ℕ
validator_already_exists = 4

abbrev pub invalid_token_type : ℕ
invalid_token_type = 5

abbrev pub invalid_operator : ℕ
invalid_operator = 6

abbrev pub invalid_commission_rate : ℕ
invalid_commission_rate = 7

abbrev pub invalid_min_self_delegation : ℕ
invalid_min_self_delegation = 8

abbrev pub invalid_period_type : ℕ
invalid_period_type = 9

abbrev pub invalid_delegation_amount : ℕ
invalid_delegation_amount = 10

abbrev pub delegation_not_found : ℕ
delegation_not_found = 11

abbrev pub period_delegation_not_found : ℕ
period_delegation_not_found = 12

abbrev pub invalid_request : ℕ
invalid_request = 13

abbrev pub self_redelegation : ℕ
self_redelegation = 14

abbrev pub token_type_mismatch : ℕ
token_type_mismatch = 15

abbrev pub missing_self_delegation : ℕ
missing_self_delegation = 16

abbrev pub validator_not_jailed : ℕ
validator_not_jailed = 17

abbrev pub validator_still_jailed : ℕ
validator_still_jailed = 18

abbrev pub pending_upgrade_exists : ℕ
pending_upgrade_exists = 19
