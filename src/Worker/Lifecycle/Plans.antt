-- ===== src/Worker/Lifecycle/Plans.antt =====
-- internal/ems/worker/lifecycle.go: the plans that `SetPlans` keeps.
use lte_element_manager.Prelude.{
  String, Bool, true, false, Option, none, some, List, [], ◌∷◌, ◌==◌, string_eq, ◌≡◌, refl, arith,
  if◌then◌else◌, Bool-cases, inl, inr, ap,
}
use lte_element_manager.Prelude.Text.{trim_space}
use lte_element_manager.Prelude.Map.{Map, lookup, insert, lookup-insert, lookup-empty, any_opt}
use lte_element_manager.Worker.Lifecycle.{
  RestartPlan, DockerSupervisor, add_plans, set_plans, plan_for_target, chosen_plan, trimmed_names,
  or_target,
}
use lte_element_manager.Worker.Lifecycle.Ledger.{has_name}

trimmed_named : (ds : List String) → has_name "" (trimmed_names ds) ≡ false
trimmed_named [] = refl
trimmed_named (d ∷ ds) = ground (arith, trimmed_named ds)

-- Whether a plan is there that names an empty dependent.
abbrev has_blank : Option RestartPlan → Bool
has_blank = any_opt (λ p. has_name "" p.dependents)

unblank :
    (b : Bool) (p : RestartPlan) (o : Option RestartPlan)
    → has_name "" p.dependents ≡ false
    → has_blank o ≡ false
    → has_blank (if b then some p else o) ≡ false
unblank true p o h k = h
unblank false p o h k = k

add_named :
    (plans out : Map String RestartPlan) (t : String)
    → has_blank (lookup t out) ≡ false
    → has_blank (lookup t (add_plans plans out)) ≡ false
unfolding add_plans
add_named [] out t h = h
add_named ((k, p) ∷ plans) out t h = elim (Bool-cases (trim_space k == "")) [
  | inl e ↦ rw (e, add_plans) (add_named plans out t h)
  | inr e ↦
      let q : RestartPlan = record {
        primary = or_target (trim_space p.primary) (trim_space k);
        dependents = trimmed_names p.dependents;
        delay_after_start = p.delay_after_start;
      } in
      rw (e, add_plans)
        (add_named plans (insert (trim_space k) q out) t (
          rw (lookup-insert t (trim_space k) q out)
            (unblank (trim_space k == t) q (lookup t out) (trimmed_named p.dependents) h)))
]

chosen_named :
    (t : String) (o : Option RestartPlan)
    → (t == "") ≡ false
    → has_blank o ≡ false
    → has_name "" ((chosen_plan t o).primary ∷ (chosen_plan t o).dependents) ≡ false
chosen_named t none h k = ground (arith, h)
chosen_named t (some p) h k = ground (arith, h, k)

-- Once the plans are set, the plan that is chosen for a target with a name has no container
-- without one.
pub plan_is_named :
    (s : DockerSupervisor) (plans : Map String RestartPlan) (t : String)
    → (t == "") ≡ false
    → has_name "" (
        (plan_for_target (set_plans s plans) t).primary
        ∷ (plan_for_target (set_plans s plans) t).dependents)
      ≡ false
unfolding plan_for_target set_plans
plan_is_named s plans t h =
    chosen_named t (lookup t (add_plans plans [])) h
      (add_named plans [] t (ap has_blank (lookup-empty t)))
