-- ===== src/Errors.antt =====
-- libs/common/src/exceptions/rpc.exception.ts and dto/error-response.dto.ts: the error codes, the
-- payload that crosses the RabbitMQ wire, and the values that the handlers throw and catch. The
-- children model the service's filter, the gateway's RPC client and the gateway's filter.
pub mod Codes
pub mod Defs
pub mod Filter
pub mod Client
pub mod HttpFilter
pub mod Transport
