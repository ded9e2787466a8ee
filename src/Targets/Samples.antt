-- ===== src/Targets/Samples.antt =====
-- A profile below another one, a cycle, and the theorem at the first.
use orphanode.Common.{none, some, [], ◌∷◌, ◌≡◌, refl}
use orphanode.Common.Text.{text}
use orphanode.Common.Result.{ok, err}
use orphanode.Targets.{
  Definitions, open_mode, closed_mode, cycle, finish_profile, resolve_profile, resolve_each,
  resolve_target_profiles,
}
use orphanode.Targets.Verdict.{Verdict, resolve_target_profiles_lem}

abbrev two_profiles : Definitions
two_profiles =
    (
      text "node",
      record { extends = none; conditions = text "import" ∷ text "node" ∷ []; world = none },
    )
    ∷ (
      text "test",
      record {
        extends = some (text "node");
        conditions = text "development" ∷ [];
        world = some closed_mode;
      },
    )
    ∷ []

abbrev circle : Definitions
circle =
    (text "a", record { extends = some (text "b"); conditions = []; world = none })
    ∷ (text "b", record { extends = some (text "a"); conditions = []; world = none })
    ∷ []

profiles_test :
    (resolve_target_profiles two_profiles open_mode
      ≡ ok (
          (record {
            name = text "node";
            conditions = text "import" ∷ text "node" ∷ [];
            world = open_mode;
          })
          ∷ (record {
            name = text "test";
            conditions = text "development" ∷ text "import" ∷ text "node" ∷ [];
            world = closed_mode;
          })
          ∷ []))
    × (resolve_target_profiles circle closed_mode ≡ err (cycle (text "a")))
unfolding resolve_target_profiles resolve_each resolve_profile finish_profile
profiles_test = (refl, refl)

resolve_target_profiles_example :
    Verdict two_profiles open_mode (resolve_target_profiles two_profiles open_mode)
resolve_target_profiles_example =
    resolve_target_profiles_lem two_profiles open_mode (((refl, tt), (tt, tt)))
