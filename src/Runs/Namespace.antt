-- ===== src/Runs/Namespace.antt =====
-- The memory namespace of a run and of a cycle (internal/platform/runs/service.go).
pub mod Total
use Prim.Native.String
use clawbot_server.Base.{String, Option, none, some, ◌==◌, if◌then◌else◌}
use clawbot_server.Text.{trim_space}
use clawbot_server.Runs.Types.{MemoryNamespace, Run, Cycle}

-- `if value == "" { value = fallback }`.
abbrev pub or_text : String → String → String
or_text value fallback = if value == "" then fallback else value

unfoldable pub normalize_memory_namespace :
    MemoryNamespace → String → String → String → MemoryNamespace
normalize_memory_namespace ns repo domain run_key =
    let given = or_text (trim_space ns.repo_namespace) (trim_space repo) in
    let key = or_text (trim_space run_key) "unspecified" in
    record {
      repo_namespace = or_text (or_text given (trim_space domain)) "global";
      run_namespace = or_text (trim_space ns.run_namespace) (String.◌++◌ "run-" key);
      cycle_namespace = trim_space ns.cycle_namespace;
      agent_namespace = trim_space ns.agent_namespace;
    }

-- `if agentNamespace != nil { ns.AgentNamespace = strings.TrimSpace(*agentNamespace) }`.
abbrev pub with_agent : Option String → MemoryNamespace → MemoryNamespace
with_agent none ns = ns
with_agent (some agent) ns = record ns { agent_namespace = trim_space agent }

unfoldable pub compose_memory_namespace : Run → Cycle → Option String → MemoryNamespace
unfolding normalize_memory_namespace
compose_memory_namespace run cycle agent_namespace =
    let ns = normalize_memory_namespace run.memory_namespace run.repo run.domain run.id in
    with_agent agent_namespace (record ns { cycle_namespace = cycle.cycle_key })
