-- ===== src/GrpcConnection.antt =====
-- The connection of a gRPC client: the readiness timers of src/zeebe/lib/GrpcClient.ts, the startup phase of
-- src/zeebe/lib/GrpcMiddleware.ts and src/zeebe/lib/StatefulLogInterceptor.ts, and the events and retries of
-- src/zeebe/zb/ZeebeGrpcClient.ts. The gRPC channel is a library: its answers are turns.
pub mod Log
pub mod Signals
pub mod Retry
mod Tests

pub data State : Type 0 where
  error connected unknown : State
