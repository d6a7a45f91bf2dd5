-- ===== src/Strings/Strip.antt =====
-- StringUtil::strip of workflow-step-by-step/src/util/StringUtil.cc. `trim_left` is the loop that
-- moves `st` up, `trim_right` the one that moves `ed` down to `st`.
pub mod Trimmed
use demo_submodule.Prelude.{ℕ, List, [], ◌∷◌, ◌&&◌, if◌then◌else◌, is_empty}
use demo_submodule.Ctype.{isspace}

pub trim_left : List ℕ → List ℕ
trim_left [] = []
trim_left (c ∷ rest) = if isspace c then trim_left rest else c ∷ rest

pub trim_right : List ℕ → List ℕ
trim_right [] = []
trim_right (c ∷ rest) =
    let kept = trim_right rest in if is_empty kept && isspace c then [] else c ∷ kept

pub strip : List ℕ → List ℕ
strip str = trim_right (trim_left str)
