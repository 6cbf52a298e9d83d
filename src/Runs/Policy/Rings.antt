-- ===== src/Runs/Policy/Rings.antt =====
-- Exactly when the policy allows an action.
use clawbot_server.Base.{
  ◌∙◌, String, Bool, true, false, not, ◌&&◌, ◌||◌, List, [], ◌∷◌, Option, none, some, ◌≡◌, refl,
  ◌⊎◌, inl, inr, arith, ◌==◌, one_of, All, All-one_of, eq_of_test, Bool-cases, if◌then◌else◌,
}
use clawbot_server.Base.Int.{ltb_ℤ}
use clawbot_server.Text.{trim_space, to_lower}
use clawbot_server.Runs.Status.{
  is_valid_execution_ring, minimum_ring_for_mode, ring_rank, execution_rings,
}
use clawbot_server.Runs.Policy.{
  PolicyOutcome, verdict, Value, text, flag, texts, PolicyInput, lookup, printed,
  execution_ring_from_any, is_external_target, below_ring_3, denies_target, is_web_uri,
  evaluate_policy_outcome,
}

-- Whether a mode uses a model.
abbrev pub uses_model : String → Bool
uses_model mode = one_of ("llm" ∷ "dual" ∷ []) (to_lower (trim_space mode))

-- A model needs ring 2 or 3; anything else needs ring 1 at least.
abbrev pub suffices : String → String → Bool
suffices mode ring =
    one_of ("ring_2" ∷ "ring_3" ∷ []) ring || (ring == "ring_1" && not (uses_model mode))

abbrev pub any_external : Option Value → Bool
any_external (some (texts [])) = false
any_external (some (texts (t ∷ ts))) = is_external_target t || any_external (some (texts ts))
any_external _ = false

-- The decision: the ring is known, it suffices for the mode, and below ring 3 no target is external
-- and the artifact is not on the web.
abbrev pub permits : String → String → Option Value → String → Bool
permits mode ring targets uri =
    is_valid_execution_ring ring
    && (suffices mode ring && (ring == "ring_3" || not (any_external targets || is_web_uri uri)))

RankRow : Bool → String → Type 0
RankRow model ring =
    ltb_ℤ (ring_rank ring) (ring_rank (if model then "ring_2" else "ring_1"))
    ≡ not (one_of ("ring_2" ∷ "ring_3" ∷ []) ring || (ring == "ring_1" && not model))

rank_rows : (model : Bool) → All (RankRow model) execution_rings
unfolding RankRow ring_rank trim_space to_lower
rank_rows true = (refl, (refl, (refl, (refl, tt))))
rank_rows false = (refl, (refl, (refl, (refl, tt))))

rank_suffices :
    (mode ring : String)
    → is_valid_execution_ring ring ≡ true
    → ltb_ℤ (ring_rank ring) (ring_rank (minimum_ring_for_mode mode)) ≡ not (suffices mode ring)
unfolding RankRow minimum_ring_for_mode is_valid_execution_ring
rank_suffices mode ring h =
    All-one_of (RankRow (uses_model mode)) execution_rings ring (rank_rows (uses_model mode)) h

below_rows : All (λ ring. below_ring_3 ring ≡ not (ring == "ring_3")) execution_rings
unfolding ring_rank trim_space to_lower
below_rows = (refl, (refl, (refl, (refl, tt))))

below_ring_3-valid :
    (ring : String)
    → is_valid_execution_ring ring ≡ true
    → below_ring_3 ring ≡ not (ring == "ring_3")
unfolding is_valid_execution_ring
below_ring_3-valid ring h =
    All-one_of (λ r. below_ring_3 r ≡ not (r == "ring_3")) execution_rings ring below_rows h

denies_target-any :
    (ring : String) (targets : Option Value)
    → denies_target ring targets ≡ (any_external targets && below_ring_3 ring)
unfolding denies_target
denies_target-any ring none = refl
denies_target-any ring (some (text s)) = refl
denies_target-any ring (some (flag b)) = refl
denies_target-any ring (some (texts [])) = refl
denies_target-any ring (some (texts (t ∷ ts))) =
    ground (arith, denies_target-any ring (some (texts ts)))

web_uri-full : (uri : String) → (not (uri == "") && is_web_uri uri) ≡ is_web_uri uri
web_uri-full uri = elim (Bool-cases (uri == "")) [
  | inl blank ↦ rw (eq_of_test uri "" blank) refl
  | inr full ↦ rw full refl
]

abbrev pub deny_reasons : List String
deny_reasons =
    "invalid_execution_ring" ∷ "execution_ring_too_low" ∷ "external_target_requires_ring_3"
    ∷ "artifact_external_uri_requires_ring_3" ∷ []

-- An outcome that allows has the reason `policy_allow` and no fallback; one that denies has the
-- fallback `deny` and a reason of its own.
abbrev pub IsCoherent : PolicyOutcome → Type 0
IsCoherent out =
    ((out.allow ≡ true) × (out.reason_code ≡ "policy_allow") × (out.fallback_mode ≡ ""))
    ⊎ ((out.allow ≡ false)
        × (one_of deny_reasons out.reason_code ≡ true)
        × (out.fallback_mode ≡ "deny"))

verdict_lem :
    (known too_low external web : Bool) (required action : String)
    → let out = verdict known too_low external web required action in
      (out.allow ≡ (known && (not too_low && not (external || web)))) × IsCoherent out
unfolding verdict
verdict_lem false too_low external web required action = (refl, inr (refl, refl, refl))
verdict_lem true true external web required action = (refl, inr (refl, refl, refl))
verdict_lem true false true web required action = (refl, inr (refl, refl, refl))
verdict_lem true false false true required action = (refl, inr (refl, refl, refl))
verdict_lem true false false false required action = (refl, inl (refl, refl, refl))

ladder :
    (enough external top full web : Bool)
    → (full && web) ≡ web
    → (not (not enough) && not (external && not top || full && (web && not top)))
      ≡ (enough && (top || not (external || web)))
ladder enough external top full web h = ground arith

permits_lem :
    (mode ring : String) (targets : Option Value) (uri : String)
    → (is_valid_execution_ring ring
        && (not (ltb_ℤ (ring_rank ring) (ring_rank (minimum_ring_for_mode mode)))
            && not (
                denies_target ring targets
                || (not (uri == "") && (is_web_uri uri && below_ring_3 ring)))))
      ≡ permits mode ring targets uri
permits_lem mode ring targets uri = elim (Bool-cases (is_valid_execution_ring ring)) [
  | inl known ↦
      rw
        (
          known,
          rank_suffices mode ring known,
          denies_target-any ring targets,
          below_ring_3-valid ring known,
        )
        (ladder (suffices mode ring) (any_external targets) (ring == "ring_3") (not (uri == ""))
          (is_web_uri uri) (web_uri-full uri))
  | inr unknown ↦ rw unknown refl
]

-- The policy allows an action exactly when the ring is known, suffices for the mode, and is ring 3
-- wherever a target is external or the artifact is a web address. Every outcome is coherent.
pub evaluate_policy_outcome_lem :
    (input : PolicyInput)
    → ((evaluate_policy_outcome input).allow
        ≡ permits
            (trim_space (printed (lookup "execution_mode" input)))
            (execution_ring_from_any (lookup "execution_ring" input))
            (lookup "outbound_targets" input)
            (trim_space (printed (lookup "artifact_uri" input))))
      × IsCoherent (evaluate_policy_outcome input)
unfolding evaluate_policy_outcome
evaluate_policy_outcome_lem input =
    let (allowed, coherent) = verdict_lem _ _ _ _ _ _ in
    (allowed ∙ permits_lem _ _ _ (trim_space (printed (lookup "artifact_uri" input))), coherent)
