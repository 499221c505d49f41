-- ===== src/Prelude/Maps.antt =====
-- Go's maps from strings, as lists of their entries.
use mathlib.Core.List.{List, [], ◌∷◌}
use mathlib.Core.Option.{Option, none, some}
use integration_console.Prelude.Tests.{if◌then◌else◌}
use integration_console.Prelude.Texts.{Text, same_text}

module _ {V : Type 0} where
  -- A look-up in a map.
  unfoldable pub get_entry : Text → List (Text × V) → Option V
  get_entry id [] = none
  get_entry id ((k, v) ∷ rest) = if same_text k id then some v else get_entry id rest

  unfoldable pub set_entry : Text → V → List (Text × V) → List (Text × V)
  set_entry id v [] = (id, v) ∷ []
  set_entry id v ((k, w) ∷ rest) =
      if same_text k id then (id, v) ∷ rest else (k, w) ∷ set_entry id v rest

  unfoldable pub delete_entry : Text → List (Text × V) → List (Text × V)
  delete_entry id [] = []
  delete_entry id ((k, w) ∷ rest) = if same_text k id then rest else (k, w) ∷ delete_entry id rest
