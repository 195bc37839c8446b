-- ===== src/Examples/Platform.antt =====
-- A run of requests on the small tenant.
use aigov.Examples.World.{half_cleared, use_case_in}
use aigov.Lifecycle.Advance.{advance_use_case}
use aigov.Lifecycle.ReEvaluate.{re_evaluate}
use aigov.Model.Enums.Lifecycle.{LifecycleState}
use aigov.Model.Session.{Session}
use aigov.Platform.Lawful.{IsLawful}
use aigov.Platform.Runs.{walks, next, re_evaluates, Run-IsLawful, stop_here, waits}
use aigov.Prelude.{refl}

abbrev first_day : Session
first_day = half_cleared LifecycleState.requested

abbrev advanced : Session
advanced = (advance_use_case (use_case_in LifecycleState.requested) 2 first_day).1

abbrev later_on : Session
later_on = record advanced { now = 200 }

IsLawful-at_first : IsLawful first_day
IsLawful-at_first = record {
  sound = record { keyed = (tt, tt); traced = (refl, tt); hinted = (refl, tt) };
  granted = (refl, tt);
}

Run-IsLawful_example :
    IsLawful (re_evaluate (use_case_in LifecycleState.product_check) 3 later_on).1
Run-IsLawful_example =
    Run-IsLawful {db = first_day}
      (next (walks (use_case_in LifecycleState.requested) 2) (
        next (waits 200)
          (next (re_evaluates (use_case_in LifecycleState.product_check) 3) stop_here)))
      IsLawful-at_first
