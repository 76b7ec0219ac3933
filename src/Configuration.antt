-- ===== src/Configuration.antt =====
-- The addresses of src/lib/ZeebeGrpcAddressUtils.ts with their use in src/lib/Configuration.ts and
-- src/zeebe/zb/ZeebeGrpcClient.ts, and src/lib/CamundaClientConfigTranslator.ts.
pub mod Address
pub mod Translation
mod Tests
