-- ===== src/Errors/Codes.antt =====
-- libs/common/src/dto/error-response.dto.ts: ERROR_CODES.
use nestjs_microservice_mono.Prelude.{String}

abbrev pub token_expired : String
token_expired = "token_expired"

abbrev pub token_invalid : String
token_invalid = "token_invalid"

abbrev pub unauthorized : String
unauthorized = "unauthorized"

abbrev pub forbidden : String
forbidden = "forbidden"

abbrev pub rate_limited : String
rate_limited = "rate_limited"

abbrev pub not_found_code : String
not_found_code = "not_found"

abbrev pub conflict_code : String
conflict_code = "conflict"

abbrev pub validation_error : String
validation_error = "validation_error"

abbrev pub internal_error : String
internal_error = "internal_error"
