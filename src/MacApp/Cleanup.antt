-- ===== src/MacApp/Cleanup.antt =====
-- shared/task-cleanup.rs: the failures of a cleanup, which are reported together.
use moq_cast_desktop.Base.{List, [], ◌∷◌, ◌++◌, ℕ, Option, none, some}
use moq_cast_desktop.Base.Bytes.{bytes}

-- `Errors`, in the order in which they were pushed
abbrev pub Errors : Type 0
Errors = List (List ℕ)

-- `Errors::result`; the result is an error, or none.
unfoldable pub add_result : Errors → List ℕ → Option (List ℕ) → Errors
add_result e owner none = e
add_result e owner (some error) = e ++ ((owner ++ (bytes ": " ++ error)) ∷ [])

-- `self.0.join("; ")`
unfoldable pub join_errors : List ℕ → Errors → List ℕ
join_errors first [] = first
join_errors first (second ∷ rest) = first ++ (bytes "; " ++ join_errors second rest)

-- `Errors::finish`: the error, or none.
unfoldable pub finish : Errors → Option (List ℕ)
unfolding join_errors
finish [] = none
finish (first ∷ rest) = some (join_errors first rest)
