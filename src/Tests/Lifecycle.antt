-- ===== src/Tests/Lifecycle.antt =====
-- A registration that loses its number once, an evaluation in two parts, and an archive.
use defnex_mlops.Base.{◌+◌, arith, false, none, refl, some, ◌++◌, ◌∷◌, ◌≡◌, []}
use defnex_mlops.Tests.Data.{registry, version_row, live, candidate, fresh}
use defnex_mlops.Registry.Lifecycle.{EvaluationUpdate, Attempt, allocate_version, latest}
use defnex_mlops.Registry.Lifecycle.Allocation.{
  IsCalm, IsNumbered, IsOrderly, IsNumbered-append, latest-append, Registered,
  allocate_version-IsNumbered,
}
use defnex_mlops.Registry.{ModelVersion, promoted, registered}

-- Another registration takes version 4 first.
abbrev disturbed : Attempt
disturbed = record {
  key = 8;
  rival = λ t. t ++ record (version_row 4 registered) { version = latest 7 t + 1 } ∷ [];
  is_locked = false;
}

abbrev calm : Attempt
calm = record { key = 9; rival = λ t. t; is_locked = false }

abbrev fifth : ModelVersion
fifth = record (version_row 6 registered) { id = 9; version = 5 }

allocates :
    (allocate_version (version_row 6 promoted) (disturbed ∷ calm ∷ []) registry).0 ≡ some fifth
unfolding allocate_version
allocates = refl

-- One row after the other, each under the next number.
registry-IsNumbered : IsNumbered registry
registry-IsNumbered =
    IsNumbered-append (live ∷ candidate ∷ []) fresh
      (IsNumbered-append (live ∷ []) candidate
        (IsNumbered-append [] live (λ m v. ground arith) refl) refl)
      refl

disturbed-IsOrderly : IsOrderly disturbed.rival
disturbed-IsOrderly t numbered =
    let row = record (version_row 4 registered) { version = latest 7 t + 1 } in
    (
      IsNumbered-append t row numbered refl,
      λ m. let top = latest-append m t row in rw top (ground arith),
    )

allocate_version-IsNumbered_example :
    Registered
      (version_row 6 promoted)
      fifth
      (allocate_version (version_row 6 promoted) (disturbed ∷ calm ∷ []) registry).1
allocate_version-IsNumbered_example =
    allocate_version-IsNumbered (version_row 6 promoted) (disturbed ∷ calm ∷ []) registry fifth
      (disturbed-IsOrderly, ((λ t n. (n, λ m. omega arith)), tt)) registry-IsNumbered allocates

calm-IsCalm : IsCalm calm
calm-IsCalm = record { is_open = refl; is_alone = λ t. refl }

abbrev empty_update : EvaluationUpdate
empty_update = record {
  eval_set_id = none;
  eval_set_version = none;
  eval_loss_trend = none;
  qualitative_comparison = none;
  general_domain_regression_check = none;
}

abbrev losses : EvaluationUpdate
losses = record empty_update {
  eval_loss_trend = some (record { this_version_eval_loss = 9; previous_version_eval_loss = none });
}

abbrev answers : EvaluationUpdate
answers = record empty_update { qualitative_comparison = some (record { wins = 2; losses = 1 }) }

abbrev unevaluated : ModelVersion
unevaluated = record (version_row 3 registered) {
  eval_loss_trend = none;
  qualitative_comparison = none;
}
