-- ===== src/Runs/Namespace/Total.antt =====
-- A normalised namespace is never blank, and normalising again changes nothing.
use Prim.Native.String
use text.Mathlib.TextLemmas.{cons-append, cons-ne-nil}
use clawbot_server.Base.{Char, eq_of_test, String, ◌≡◌, refl, false, ◌==◌, Bool-cases, inl, inr}
use clawbot_server.Text.{trim_space}
use clawbot_server.Text.Trimming.{trim_space_idem, trim_space-run_trimmed}
use clawbot_server.Runs.Refs.Clean.{IsPlain}
use clawbot_server.Runs.Types.{MemoryNamespace}
use clawbot_server.Runs.Namespace.{or_text, normalize_memory_namespace}

or_text_trimmed :
    (value fallback : String)
    → trim_space value ≡ value
    → trim_space fallback ≡ fallback
    → trim_space (or_text value fallback) ≡ or_text value fallback
or_text_trimmed value fallback h k = elim (Bool-cases (value == "")) [
  | inl blank ↦ rw blank k
  | inr full ↦ rw full h
]

-- No repository namespace and no run namespace is blank or has white space at an end.
abbrev pub IsComplete : MemoryNamespace → Type 0
IsComplete ns = IsPlain ns.repo_namespace × IsPlain ns.run_namespace

or_text_full :
    (value fallback : String) → (fallback == "") ≡ false → (or_text value fallback == "") ≡ false
or_text_full value fallback h = elim (Bool-cases (value == "")) [
  | inl blank ↦ rw blank h
  | inr full ↦ rw full full
]

or_text-IsPlain :
    (value fallback : String)
    → trim_space value ≡ value
    → IsPlain fallback
    → IsPlain (or_text value fallback)
or_text-IsPlain value fallback h (trimmed, full) =
    (or_text_trimmed value fallback h trimmed, or_text_full value fallback full)

cons-ne-empty : (c : Char) (s : String) → (String.◌∷◌ c s == "") ≡ false
cons-ne-empty c s = elim (Bool-cases (String.◌∷◌ c s == "")) [
  | inl same ↦ absurd (cons-ne-nil c s (eq_of_test _ _ same))
  | inr other ↦ other
]

-- What `"run-" + runKey` gives.
run_prefix-IsPlain : (key : String) → trim_space key ≡ key → IsPlain (String.◌++◌ "run-" key)
run_prefix-IsPlain key h = (trim_space-run_trimmed key h, rw cons-append (cons-ne-empty _ _))

-- A normalised namespace has a repository and a run, trimmed and not empty, whatever it is given.
pub normalize_memory_namespace-IsComplete :
    (ns : MemoryNamespace) (repo domain run_key : String)
    → IsComplete (normalize_memory_namespace ns repo domain run_key)
unfolding normalize_memory_namespace
normalize_memory_namespace-IsComplete ns repo domain run_key =
    let given =
      or_text_trimmed (trim_space ns.repo_namespace) (trim_space repo)
        (trim_space_idem ns.repo_namespace) (trim_space_idem repo) in
    let scoped =
      or_text_trimmed (or_text (trim_space ns.repo_namespace) (trim_space repo)) (trim_space domain)
        given (trim_space_idem domain) in
    let key =
      or_text_trimmed (trim_space run_key) "unspecified" (trim_space_idem run_key)
        (unfold trim_space in refl) in
    (
      or_text-IsPlain _ "global" scoped ((unfold trim_space in refl), refl),
      or_text-IsPlain (trim_space ns.run_namespace) _ (trim_space_idem ns.run_namespace)
          (run_prefix-IsPlain _ key),
    )

normalize_memory_namespace_of_IsComplete :
    (ns : MemoryNamespace) (repo domain run_key : String)
    → IsComplete ns
    → trim_space ns.cycle_namespace ≡ ns.cycle_namespace
    → trim_space ns.agent_namespace ≡ ns.agent_namespace
    → normalize_memory_namespace ns repo domain run_key ≡ ns
unfolding normalize_memory_namespace
normalize_memory_namespace_of_IsComplete ns repo domain run_key ((r, r'), (k, k')) c a =
    simp (r, r', k, k', c, a)

-- Once normalised, a namespace is left alone by every later normalisation, also for another
-- repository, domain or run.
pub normalize_memory_namespace_stable :
    (ns : MemoryNamespace) (repo domain run_key repo' domain' run_key' : String)
    → normalize_memory_namespace
        (normalize_memory_namespace ns repo domain run_key)
        repo'
        domain'
        run_key'
      ≡ normalize_memory_namespace ns repo domain run_key
normalize_memory_namespace_stable ns repo domain run_key repo' domain' run_key' =
    normalize_memory_namespace_of_IsComplete (normalize_memory_namespace ns repo domain run_key)
      repo' domain' run_key' (normalize_memory_namespace-IsComplete ns repo domain run_key)
      (unfold normalize_memory_namespace in trim_space_idem ns.cycle_namespace)
      (unfold normalize_memory_namespace in trim_space_idem ns.agent_namespace)
