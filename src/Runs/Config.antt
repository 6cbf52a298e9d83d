-- ===== src/Runs/Config.antt =====
-- The configuration of the runs service: `DependencyConfig` of
-- internal/platform/runs/service.go. A `time.Duration` is a number of nanoseconds.
use clawbot_server.Base.{String, Bool, ◌==◌, if◌then◌else◌}
use clawbot_server.Base.Int.{ℤ}
use clawbot_server.Text.{trim_space}

pub record DependencyConfig : Type 0 where
  pub clawmem_base_url : String
  pub inference_base_url : String
  pub guardrail_timeout : ℤ
  pub helper_timeout : ℤ
  pub disable_local_ollama_guardrails : Bool
  pub enable_compact_dual_payload : Bool
  pub policy_bundle_id : String
  pub policy_bundle_version : String
  pub environment : String

-- The defaults of `NewManagerWithIntegrations`, from the addresses of the two clients.
unfoldable pub with_defaults : String → String → DependencyConfig → DependencyConfig
with_defaults memory_url inference_url deps =
    let default : String → String → String =
      λ value fallback. if trim_space value == "" then fallback else value in
    record deps {
      clawmem_base_url = if deps.clawmem_base_url == "" then memory_url else deps.clawmem_base_url;
      inference_base_url =
          if deps.inference_base_url == "" then inference_url else deps.inference_base_url;
      policy_bundle_id = default deps.policy_bundle_id "ach-governance";
      policy_bundle_version = default deps.policy_bundle_version "2026.1";
      environment = default deps.environment "unknown";
    }
